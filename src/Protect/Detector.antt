-- ===== src/Protect/Detector.antt =====
-- internal/protect/detector.go: failure windows of the journal jails. Times and durations are in
-- nanoseconds, and `at` lies before the cut-off `now - find_time` when `at + find_time < now`. The
-- map of failures is an association list; a zero `nextPrune` is `none`.
pub mod Accepted
pub mod Pruning
pub mod Windows
pub mod Transparent
use better_firewall.Prelude.{
  ℕ, ◌+◌, ◌/◌, Bool, true, false, not, ◌&&◌, ◌||◌, List, [], ◌∷◌, ◌++◌, String, Option, none, some,
  ltb, nat_eq, ◌==◌, ℕ-eq, String-eq, if◌then◌else◌, keep, map, length, get_elem?, ◌<>◌,
}
use better_firewall.Prelude.Int.{pos}
use better_firewall.Store.{ThreatBan}
use better_firewall.Net.{NetText, Addr, v4, v6, Prefix, contains, unmap, without_zone}

-- `compiledPattern`; the expression is kept as its text.
pub record Pattern : Type 0 where
  pub re : String
  pub ip_idx : ℕ

-- `compiledJail`.
pub record Jail : Type 0 where
  pub name : String
  pub identifiers : List String
  pub patterns : List Pattern
  pub max_retries : ℕ
  pub find_time : ℕ
  pub ban_time : ℕ
  pub ignore_ips : List Prefix

-- `failureKey`.
pub record FailureKey : Type 0 where
  pub jail : String
  pub ip : Addr

abbrev pub key_of : Jail → Addr → FailureKey
key_of jail ip = record { jail = jail.name; ip = ip }

unfoldable pub addr_eq : Addr → Addr → Bool
addr_eq (v4 n) (v4 m) = n == m
addr_eq (v6 n zone) (v6 m other) = n == m && zone == other
addr_eq _ _ = false

unfoldable pub key_eq : FailureKey → FailureKey → Bool
unfolding addr_eq
key_eq k j = k.jail == j.jail && addr_eq k.ip j.ip

abbrev pub Failures : Type 0
Failures = List (FailureKey × List ℕ)

-- `failures[key]`, `failures[key] = times` and `delete(failures, key)`.
unfoldable pub failures_of : FailureKey → Failures → List ℕ
failures_of k [] = []
failures_of k ((j, times) ∷ fs) = if key_eq j k then times else failures_of k fs

unfoldable pub put_failures : FailureKey → List ℕ → Failures → Failures
put_failures k times [] = (k, times) ∷ []
put_failures k times ((j, old) ∷ fs) =
    if key_eq j k then (j, times) ∷ fs else (j, old) ∷ put_failures k times fs

unfoldable pub delete_failures : FailureKey → Failures → Failures
delete_failures k [] = []
delete_failures k ((j, old) ∷ fs) =
    if key_eq j k then delete_failures k fs else (j, old) ∷ delete_failures k fs

-- The times that do not lie before the cut-off.
unfoldable pub recent : ℕ → ℕ → List ℕ → List ℕ
recent find_time now times = keep (λ at. not (ltb (at + find_time) now)) times

-- `findTimes[name]`: the last jail of the name counts, and 0 if there is none.
unfoldable pub find_time_from : ℕ → List Jail → String → ℕ
find_time_from found [] name = found
find_time_from found (j ∷ jails) name =
    find_time_from (if j.name == name then j.find_time else found) jails name

-- The loop of `prune`.
unfoldable pub prune_all : List Jail → ℕ → Failures → Failures
unfolding recent find_time_from
prune_all jails now [] = []
prune_all jails now ((k, times) ∷ fs) =
    let kept = recent (find_time_from 0 jails k.jail) now times in
    if nat_eq (length kept) 0 then prune_all jails now fs else (k, kept) ∷ prune_all jails now fs

pub record Detector : Type 0 where
  pub jails : List Jail
  pub failures : Failures
  pub next_prune : Option ℕ

abbrev pub minute : ℕ
minute = 60000000000

unfoldable pub due : Option ℕ → ℕ → Bool
due none now = true
due (some next) now = not (ltb now next)

unfoldable pub prune : ℕ → Detector → Detector
unfolding prune_all due
prune now d =
    if due d.next_prune now
    then record d { failures = prune_all d.jails now d.failures; next_prune = some (now + minute) }
    else d

unfoldable pub ignored : Addr → List Prefix → Bool
ignored ip [] = false
ignored ip (p ∷ prefixes) = if contains p ip then true else ignored ip prefixes

unfoldable pub mem_identifier : String → List String → Bool
mem_identifier s [] = false
mem_identifier s (t ∷ ts) = t == s || mem_identifier s ts

-- `submatch` is FindStringSubmatch: the match and its groups.
module _ (net : NetText) (submatch : String → String → Option (List String)) where
  open net use {parse_addr, show_addr}

  -- The address that one pattern captures.
  unfoldable pub captured : Pattern → String → Option Addr
  captured p message = elim (submatch p.re message) [
    | none ↦ none
    | some groups ↦ elim (get_elem? groups p.ip_idx) [
      | none ↦ none
      | some text ↦ elim (parse_addr text) [ none ↦ none | some a ↦ some (unmap (without_zone a)) ]
    ]
  ]

  unfoldable pub matching_ip : List Pattern → String → Option Addr
  unfolding captured
  matching_ip [] message = none
  matching_ip (p ∷ patterns) message = elim (captured p message) [
    | none ↦ matching_ip patterns message
    | some a ↦ some a
  ]

  unfoldable pub ban_for : Jail → Addr → ℕ → ThreatBan
  ban_for jail ip now = record {
    address = show_addr ip;
    source = "ssh:" <> jail.name;
    reason = "failed authentication";
    decision_id = pos 0;
    expires_at = pos ((now + jail.ban_time) / 1000000000);
  }

  -- The failures of a jail and an address after one more, and the ban if there are enough.
  unfoldable pub count_failure : Jail → Addr → ℕ → Failures → Failures × List ThreatBan
  unfolding ban_for
  count_failure jail ip now fs =
      let key = key_of jail ip in
      let times = recent jail.find_time now (failures_of key fs) ++ now ∷ [] in
      if ltb (length times) jail.max_retries
      then (put_failures key times fs, [])
      else (delete_failures key fs, ban_for jail ip now ∷ [])

  -- One round of the loop over the jails.
  unfoldable pub observe_jail : String → String → ℕ → Jail → Failures → Failures × List ThreatBan
  unfolding mem_identifier ignored
  observe_jail identifier message now jail fs =
      if not (mem_identifier identifier jail.identifiers)
      then (fs, [])
      else elim (matching_ip jail.patterns message) [
        | none ↦ (fs, [])
        | some ip ↦ if ignored ip jail.ignore_ips then (fs, []) else count_failure jail ip now fs
      ]

  unfoldable pub observe_jails :
      String → String → ℕ → List Jail → Failures → Failures × List ThreatBan
  observe_jails identifier message now [] fs = (fs, [])
  observe_jails identifier message now (jail ∷ jails) fs =
      let first = observe_jail identifier message now jail fs in
      let rest = observe_jails identifier message now jails first.0 in (rest.0, first.1 ++ rest.1)

  -- `Observe`.
  unfoldable pub observe : String → String → ℕ → Detector → Detector × List ThreatBan
  observe identifier message now d =
      let pruned = prune now d in
      let r = observe_jails identifier message now pruned.jails pruned.failures in
      (record pruned { failures = r.0 }, r.1)
