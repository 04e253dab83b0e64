-- ===== src/Protect/Detector/Pruning.antt =====
-- What pruning does to the failure windows.
use text.Mathlib.TextEquality.{eq_iff}
use better_firewall.Prelude.{
  ℕ, ◌+◌, ◌≤◌, Bool, true, false, ◌&&◌, List, [], ◌∷◌, ltb, nat_eq, ◌==◌, ℕ-eq, String-eq,
  if◌then◌else◌, length, ◌≡◌, refl, arith, ap, ◌∙◌, subst, Bool-cases, inl, inr,
}
use better_firewall.Net.{Addr, v4, v6}
use better_firewall.Protect.Detector.{
  Jail, FailureKey, Failures, addr_eq, key_eq, failures_of, put_failures, delete_failures, recent,
  find_time_from, prune_all,
}

addr_eq_sound : (a b : Addr) → addr_eq a b ≡ true → a ≡ b
unfolding addr_eq
addr_eq_sound (v4 n) (v4 m) h = ground arith
addr_eq_sound (v4 n) (v6 m z) h = cc
addr_eq_sound (v6 n y) (v4 m) h = cc
addr_eq_sound (v6 n y) (v6 m z) h = grind (arith, eq_iff)

addr_eq_refl : (a : Addr) → addr_eq a a ≡ true
unfolding addr_eq
addr_eq_refl (v4 n) = ground arith
addr_eq_refl (v6 n z) = ground (arith, eq_iff z z)

and_split : (a b : Bool) → a && b ≡ true → (a ≡ true) × (b ≡ true)
and_split true true h = (refl, refl)
and_split true false h = (refl, h)
and_split false b h = (h, cc)

pub key_eq_sound : (j k : FailureKey) → key_eq j k ≡ true → j ≡ k
unfolding key_eq
key_eq_sound j k h =
    let (same_jail, same_ip) = and_split (j.jail == k.jail) (addr_eq j.ip k.ip) h in
    let jail : j.jail ≡ k.jail = (eq_iff j.jail k.jail).0 same_jail in
    let ip : j.ip ≡ k.ip = addr_eq_sound j.ip k.ip same_ip in
    λ i. record { jail = jail i; ip = ip i }

pub key_eq_refl : (k : FailureKey) → key_eq k k ≡ true
unfolding key_eq
key_eq_refl k =
    let jail : (k.jail == k.jail) ≡ true = (eq_iff k.jail k.jail).1 refl in
    rw jail (addr_eq_refl k.ip)

-- Dropping the times before an earlier cut-off first makes no difference.
pub recent-recent :
    (find_time now later : ℕ) (times : List ℕ)
    → now ≤ later
    → recent find_time later (recent find_time now times) ≡ recent find_time later times
unfolding recent
recent-recent find_time now later [] h = refl
recent-recent find_time now later (at ∷ times) h =
    let rest = recent-recent find_time now later times h in
    elim (Bool-cases (ltb (at + find_time) now)) [
      | inl old ↦
          (let older : ltb (at + find_time) later ≡ true = ground arith in rw (old, older) rest)
      | inr young ↦ rw young (with_head rest)
    ]
  where
    with_head :
        recent find_time later (recent find_time now times) ≡ recent find_time later times
        → recent find_time later (at ∷ recent find_time now times)
          ≡ recent find_time later (at ∷ times)
    with_head e = elim (Bool-cases (ltb (at + find_time) later)) [
      | inl old ↦ rw old e
      | inr young ↦ rw young (ap (λ (l : List ℕ). at ∷ l) e)
    ]

-- No entry has the key, and no key has two entries.
abbrev pub Fresh : FailureKey → Failures → Type 0
Fresh k [] = Unit
Fresh k (f ∷ fs) = (key_eq f.0 k ≡ false) × Fresh k fs

abbrev pub Keyed : Failures → Type 0
Keyed [] = Unit
Keyed (f ∷ fs) = Fresh f.0 fs × Keyed fs

failures_of-Fresh : (k : FailureKey) (fs : Failures) → Fresh k fs → failures_of k fs ≡ []
unfolding failures_of
failures_of-Fresh k [] h = refl
failures_of-Fresh k ((j, times) ∷ fs) (h, hs) = rw h (failures_of-Fresh k fs hs)

pub Fresh-prune_all :
    (jails : List Jail) (now : ℕ) (k : FailureKey) (fs : Failures)
    → Fresh k fs
    → Fresh k (prune_all jails now fs)
unfolding prune_all
Fresh-prune_all jails now k [] h = tt
Fresh-prune_all jails now k ((j, times) ∷ fs) (h, hs) =
    let rest = Fresh-prune_all jails now k fs hs in
    chosen (nat_eq (length (recent (find_time_from 0 jails j.jail) now times)) 0)
      (recent (find_time_from 0 jails j.jail) now times) rest
  where
    chosen :
        (b : Bool) (kept : List ℕ)
        → Fresh k (prune_all jails now fs)
        → Fresh k (if b then prune_all jails now fs else (j, kept) ∷ prune_all jails now fs)
    chosen true kept rest = rest
    chosen false kept rest = (h, rest)

same_keys : (i j k : FailureKey) → key_eq i j ≡ true → key_eq i k ≡ key_eq j k
same_keys i j k h = ap (λ x. key_eq x k) (key_eq_sound i j h)

other_keys : (i j k : FailureKey) → key_eq i j ≡ false → key_eq i k ≡ true → key_eq j k ≡ false
other_keys i j k h e = elim (Bool-cases (key_eq j k)) [
  | inl same ↦
      let both : key_eq i j ≡ true =
        ap (λ x. key_eq x j) (key_eq_sound i k e)
        ∙ ap (λ x. key_eq k x) (key_eq_sound j k same)
        ∙ key_eq_refl k in
      cc
  | inr other ↦ other
]

-- What a key has after each operation.
pub failures_of-put :
    (k j : FailureKey) (times : List ℕ) (fs : Failures)
    → failures_of k (put_failures j times fs) ≡ (if key_eq j k then times else failures_of k fs)
unfolding failures_of put_failures
failures_of-put k j times [] = refl
failures_of-put k j times ((i, old) ∷ fs) =
    let rest = failures_of-put k j times fs in
    let same : key_eq i j ≡ true → key_eq i k ≡ key_eq j k = same_keys i j k in
    let other : key_eq i j ≡ false → key_eq i k ≡ true → key_eq j k ≡ false = other_keys i j k in
    ground arith

pub failures_of-delete :
    (k j : FailureKey) (fs : Failures)
    → failures_of k (delete_failures j fs) ≡ (if key_eq j k then [] else failures_of k fs)
unfolding failures_of delete_failures
failures_of-delete k j [] = ground arith
failures_of-delete k j ((i, old) ∷ fs) =
    let rest = failures_of-delete k j fs in
    let same : key_eq i j ≡ true → key_eq i k ≡ key_eq j k = same_keys i j k in
    let other : key_eq i j ≡ false → key_eq i k ≡ true → key_eq j k ≡ false = other_keys i j k in
    ground arith

no_times : (times : List ℕ) → nat_eq (length times) 0 ≡ true → [] ≡ times
no_times [] h = refl
no_times (t ∷ times) h = ground arith

pub failures_of-prune_all :
    (jails : List Jail) (now : ℕ) (k : FailureKey) (fs : Failures)
    → Keyed fs
    → failures_of k (prune_all jails now fs)
      ≡ recent (find_time_from 0 jails k.jail) now (failures_of k fs)
unfolding failures_of prune_all
failures_of-prune_all jails now k [] u = refl
failures_of-prune_all jails now k ((j, times) ∷ fs) (f, u) =
    split (find_time_from 0 jails j.jail) (prune_all jails now fs)
      (failures_of-prune_all jails now k fs u)
      (λ e. ap (λ (x : FailureKey). find_time_from 0 jails x.jail) (key_eq_sound j k e))
      (λ e.
        failures_of-Fresh k (prune_all jails now fs)
          (Fresh-prune_all jails now k fs (subst (λ x. Fresh x fs) (key_eq_sound j k e) f)))
  where
    split :
        (find_time : ℕ) (pruned : Failures)
        → failures_of k pruned ≡ recent (find_time_from 0 jails k.jail) now (failures_of k fs)
        → (key_eq j k ≡ true → find_time ≡ find_time_from 0 jails k.jail)
        → (key_eq j k ≡ true → failures_of k pruned ≡ [])
        → failures_of k (
            if nat_eq (length (recent find_time now times)) 0
            then pruned
            else (j, recent find_time now times) ∷ pruned)
          ≡ recent
              (find_time_from 0 jails k.jail)
              now
              (if key_eq j k then times else failures_of k fs)
    split find_time pruned rest time none_left = elim (Bool-cases (key_eq j k)) [
      | inl same ↦
          subst
            (λ t.
              failures_of k (
                if nat_eq (length (recent find_time now times)) 0
                then pruned
                else (j, recent find_time now times) ∷ pruned)
              ≡ recent t now (if key_eq j k then times else failures_of k fs))
            (time same)
            (elim (Bool-cases (nat_eq (length (recent find_time now times)) 0)) [
              | inl gone ↦ rw gone (rw same (none_left same ∙ no_times _ gone))
              | inr kept ↦ rw kept (rw same refl)
            ])
      | inr other ↦ rw other (elim (Bool-cases (nat_eq (length (recent find_time now times)) 0)) [
        | inl gone ↦ rw gone rest
        | inr kept ↦ rw kept (rw other rest)
      ])
    ]
