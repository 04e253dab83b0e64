-- ===== src/Protect/Detector/Transparent.antt =====
-- Pruning saves memory only: the bans are those of a detector that never prunes.
use text.Mathlib.TextEquality.{eq_iff}
use better_firewall.Prelude.{
  ℕ, ◌+◌, ◌≤◌, Bool, true, false, List, [], ◌∷◌, ◌++◌, String, Option, none, some, ltb, ◌==◌, ℕ-eq,
  String-eq, if◌then◌else◌, length, ◌≡◌, refl, arith, subst, Bool-cases, inl, inr, All,
}
use better_firewall.Store.{ThreatBan}
use better_firewall.Net.{NetText, Addr}
use better_firewall.Protect.Detector.{
  Jail, Failures, Detector, key_of, failures_of, put_failures, delete_failures, recent,
  find_time_from, prune_all, due, minute, prune, ignored, mem_identifier, matching_ip, ban_for,
  count_failure, observe_jail, observe_jails, observe,
}
use better_firewall.Protect.Detector.Pruning.{Keyed}
use better_firewall.Protect.Detector.Windows.{
  Same, Keyed-put, Keyed-delete, Keyed-prune_all, Same-prune_all, Same-put, Same-delete,
}

-- Two results with the same bans and with maps that cannot be told apart.
abbrev Agree : List Jail → ℕ → Failures × List ThreatBan → Failures × List ThreatBan → Type 0
Agree jails now r s = Keyed r.0 × Same jails now r.0 s.0 × (r.1 ≡ s.1)

Agree-if :
    (jails : List Jail) (now : ℕ) (b : Bool) (r s r' s' : Failures × List ThreatBan)
    → Agree jails now r s
    → Agree jails now r' s'
    → Agree jails now (if b then r else r') (if b then s else s')
Agree-if jails now true r s r' s' p q = p
Agree-if jails now false r s r' s' p q = q

module _ (net : NetText) (submatch : String → String → Option (List String))
    (jails : List Jail) where
  -- The findTimes of prune give the jail's own find time.
  abbrev pub Timed : Jail → Type 0
  Timed jail = find_time_from 0 jails jail.name ≡ jail.find_time

  Agree-count_failure :
      (jail : Jail) (ip : Addr) (now : ℕ) (fs gs : Failures)
      → Timed jail
      → Keyed fs
      → Same jails now fs gs
      → Agree jails now
          (count_failure net submatch jail ip now fs)
          (count_failure net submatch jail ip now gs)
  unfolding count_failure
  Agree-count_failure jail ip now fs gs timed u same =
      let key = key_of jail ip in
      let times : List ℕ = recent jail.find_time now (failures_of key fs) ++ now ∷ [] in
      let equal : recent jail.find_time now (failures_of key fs)
          ≡ recent jail.find_time now (failures_of key gs) =
        subst (λ t. recent t now (failures_of key fs) ≡ recent t now (failures_of key gs)) timed
          (same key now (omega arith)) in
      subst
        (λ (l : List ℕ). Agree jails now (count_failure net submatch jail ip now fs) (
          if ltb (length (l ++ now ∷ [])) jail.max_retries
          then (put_failures key (l ++ now ∷ []) gs, [])
          else (delete_failures key gs, ban_for net submatch jail ip now ∷ [])))
        equal
        (Agree-if jails now (ltb (length times) jail.max_retries) (put_failures key times fs, [])
          (put_failures key times gs, [])
          (delete_failures key fs, ban_for net submatch jail ip now ∷ [])
          (delete_failures key gs, ban_for net submatch jail ip now ∷ [])
          (Keyed-put key times fs u, Same-put jails now key times fs gs same, refl)
          (Keyed-delete key fs u, Same-delete jails now key fs gs same, refl))

  Agree-observe_jail :
      (identifier message : String) (now : ℕ) (jail : Jail) (fs gs : Failures)
      → Timed jail
      → Keyed fs
      → Same jails now fs gs
      → Agree jails now
          (observe_jail net submatch identifier message now jail fs)
          (observe_jail net submatch identifier message now jail gs)
  unfolding observe_jail
  Agree-observe_jail identifier message now jail fs gs timed u same =
      elim (Bool-cases (mem_identifier identifier jail.identifiers)) [
        | inl mine ↦ rw mine (matched (matching_ip net submatch jail.patterns message))
        | inr other ↦ rw other (u, same, refl)
      ]
    where
      matched :
          (o : Option Addr)
          → Agree jails now
              (elim o [
                | none ↦ (fs, [])
                | some ip ↦
                    if ignored ip jail.ignore_ips
                    then (fs, [])
                    else count_failure net submatch jail ip now fs
              ])
              (elim o [
                | none ↦ (gs, [])
                | some ip ↦
                    if ignored ip jail.ignore_ips
                    then (gs, [])
                    else count_failure net submatch jail ip now gs
              ])
      matched none = (u, same, refl)
      matched (some ip) =
          Agree-if jails now (ignored ip jail.ignore_ips) (fs, []) (gs, [])
            (count_failure net submatch jail ip now fs) (count_failure net submatch jail ip now gs)
            (u, same, refl) (Agree-count_failure jail ip now fs gs timed u same)

  Agree-observe_jails :
      (identifier message : String) (now : ℕ) (js : List Jail) (fs gs : Failures)
      → All Timed js
      → Keyed fs
      → Same jails now fs gs
      → Agree jails now
          (observe_jails net submatch identifier message now js fs)
          (observe_jails net submatch identifier message now js gs)
  unfolding observe_jails
  Agree-observe_jails identifier message now [] fs gs timed u same = (u, same, refl)
  Agree-observe_jails identifier message now (j ∷ js) fs gs (timed, ts) u same =
      let (u1, same1, bans1) = Agree-observe_jail identifier message now j fs gs timed u same in
      let (u2, same2, bans2) =
        Agree-observe_jails identifier message now js
          (observe_jail net submatch identifier message now j fs).0
          (observe_jail net submatch identifier message now j gs).0 ts u1 same1 in
      (u2, same2, rw bans1 (rw bans2 refl))

-- One message of the journal.
pub record Message : Type 0 where
  pub identifier : String
  pub text : String
  pub now : ℕ

-- No message comes before the one that precedes it.
abbrev pub InOrder : ℕ → List Message → Type 0
InOrder before [] = Unit
InOrder before (m ∷ ms) = (before ≤ m.now) × InOrder m.now ms

-- The jails have different names.
abbrev pub Distinct : List Jail → Type 0
Distinct [] = Unit
Distinct (j ∷ js) = All (λ (i : Jail). (i.name == j.name) ≡ false) js × Distinct js

find_time_unnamed :
    (found : ℕ) (name : String) (js : List Jail)
    → All (λ (i : Jail). (i.name == name) ≡ false) js
    → find_time_from found js name ≡ found
unfolding find_time_from
find_time_unnamed found name [] h = refl
find_time_unnamed found name (j ∷ js) (h, hs) = rw h (find_time_unnamed found name js hs)

All-weaken : (P Q : Jail → Type 0) (js : List Jail) → ((j : Jail) → P j → Q j) → All P js → All Q js
All-weaken P Q [] f h = tt
All-weaken P Q (j ∷ js) f (h, hs) = (f j h, All-weaken P Q js f hs)

find_times :
    (js : List Jail)
    → Distinct js
    → All (λ (i : Jail). (found : ℕ) → find_time_from found js i.name ≡ i.find_time) js
unfolding find_time_from
find_times [] d = tt
find_times (j ∷ js) (new, d) = (
  (λ found.
      let own : (j.name == j.name) ≡ true = (eq_iff j.name j.name).1 refl in
      rw own (find_time_unnamed j.find_time j.name js new)),
  All-weaken (λ (i : Jail). (found : ℕ) → find_time_from found js i.name ≡ i.find_time)
      (λ (i : Jail).
        (found : ℕ)
        → find_time_from (if j.name == i.name then j.find_time else found) js i.name ≡ i.find_time)
      js (λ i h found. h (if j.name == i.name then j.find_time else found)) (find_times js d),
)

cons_paths :
    {x y : List ThreatBan} {xs ys : List (List ThreatBan)} → x ≡ y → xs ≡ ys → x ∷ xs ≡ y ∷ ys
cons_paths p q = λ i. p i ∷ q i

module _ (net : NetText) (submatch : String → String → Option (List String)) where
  -- The bans of a run of messages.
  pub bans_of : Detector → List Message → List (List ThreatBan)
  bans_of d [] = []
  bans_of d (m ∷ ms) =
      let r = observe net submatch m.identifier m.text m.now d in r.1 ∷ bans_of r.0 ms

  -- The same without pruning.
  pub plain_bans_of : List Jail → Failures → List Message → List (List ThreatBan)
  plain_bans_of jails fs [] = []
  plain_bans_of jails fs (m ∷ ms) =
      let r = observe_jails net submatch m.identifier m.text m.now jails fs in
      r.1 ∷ plain_bans_of jails r.0 ms

  bans_of_plain :
      (jails : List Jail) (fs gs : Failures) (next : Option ℕ) (before : ℕ) (ms : List Message)
      → All (Timed net submatch jails) jails
      → InOrder before ms
      → Keyed fs
      → Same jails before fs gs
      → bans_of (record { jails = jails; failures = fs; next_prune = next }) ms
        ≡ plain_bans_of jails gs ms
  unfolding bans_of plain_bans_of observe prune
  bans_of_plain jails fs gs next before [] timed o u same = refl
  bans_of_plain jails fs gs next before (m ∷ ms) timed (o, os) u same =
      let step : (hs : Failures) (after : Option ℕ)
          → Keyed hs
          → Same jails m.now hs gs
          → (observe_jails net submatch m.identifier m.text m.now jails hs).1
              ∷ bans_of
                  (record {
                    jails = jails;
                    failures = (observe_jails net submatch m.identifier m.text m.now jails hs).0;
                    next_prune = after;
                  })
                  ms
            ≡ (observe_jails net submatch m.identifier m.text m.now jails gs).1
              ∷ plain_bans_of jails
                  (observe_jails net submatch m.identifier m.text m.now jails gs).0 ms =
        λ hs after v alike.
          let (u1, same1, bans1) =
            Agree-observe_jails net submatch jails m.identifier m.text m.now jails hs gs timed v
              alike in
          cons_paths bans1 (
            bans_of_plain jails (observe_jails net submatch m.identifier m.text m.now jails hs).0
              (observe_jails net submatch m.identifier m.text m.now jails gs).0 after m.now ms timed
              os u1 same1) in
      elim (Bool-cases (due next m.now)) [
        | inl pruning ↦ rw pruning (
            step (prune_all jails m.now fs) (some (m.now + minute))
              (Keyed-prune_all jails m.now fs u) (Same-prune_all jails before m.now fs gs o u same))
        | inr idle ↦ rw idle (step fs next u (λ k later l. same k later (omega arith)))
      ]

  -- For jails of different names and messages in order of time, a detector that starts with no
  -- failures gives for each message the bans that it would give if it never pruned, whenever its
  -- first pruning is due.
  pub bans_of_unpruned :
      (jails : List Jail) (next : Option ℕ) (before : ℕ) (ms : List Message)
      → Distinct jails
      → InOrder before ms
      → bans_of (record { jails = jails; failures = []; next_prune = next }) ms
        ≡ plain_bans_of jails [] ms
  bans_of_unpruned jails next before ms d o =
      bans_of_plain jails [] [] next before ms
        (All-weaken (λ (i : Jail). (found : ℕ) → find_time_from found jails i.name ≡ i.find_time)
          (Timed net submatch jails) jails (λ i h. h 0) (find_times jails d))
        o tt (λ k later l. refl)
