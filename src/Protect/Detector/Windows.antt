-- ===== src/Protect/Detector/Windows.antt =====
-- Maps of failures: one entry for each key, and maps that no jail can tell apart.
use better_firewall.Prelude.{
  ℕ, ◌≤◌, Bool, true, false, List, [], ◌∷◌, nat_eq, ℕ-eq, String-eq, if◌then◌else◌, length, ◌≡◌,
  refl, arith, ap, sym, ◌∙◌, Bool-cases, inl, inr,
}
use better_firewall.Protect.Detector.{
  Jail, FailureKey, Failures, key_eq, failures_of, put_failures, delete_failures, recent,
  find_time_from, prune_all,
}
use better_firewall.Protect.Detector.Pruning.{
  Fresh, Keyed, key_eq_sound, key_eq_refl, recent-recent, failures_of-put, failures_of-delete,
  failures_of-prune_all, Fresh-prune_all,
}

different_keys : (i j : FailureKey) → key_eq i j ≡ false → key_eq j i ≡ false
different_keys i j h = elim (Bool-cases (key_eq j i)) [
  | inl same ↦
      let e : key_eq i j ≡ true =
        ap (λ x. key_eq x j) (sym (key_eq_sound j i same)) ∙ key_eq_refl j in
      cc
  | inr other ↦ other
]

Fresh-put :
    (k j : FailureKey) (times : List ℕ) (fs : Failures)
    → key_eq j k ≡ false
    → Fresh k fs
    → Fresh k (put_failures j times fs)
unfolding put_failures
Fresh-put k j times [] h f = (h, tt)
Fresh-put k j times ((i, old) ∷ fs) h (f, g) = elim (Bool-cases (key_eq i j)) [
  | inl same ↦ rw same (f, g)
  | inr other ↦ rw other (f, Fresh-put k j times fs h g)
]

Fresh-delete : (k j : FailureKey) (fs : Failures) → Fresh k fs → Fresh k (delete_failures j fs)
unfolding delete_failures
Fresh-delete k j [] f = tt
Fresh-delete k j ((i, old) ∷ fs) (f, g) = elim (Bool-cases (key_eq i j)) [
  | inl same ↦ rw same (Fresh-delete k j fs g)
  | inr other ↦ rw other (f, Fresh-delete k j fs g)
]

pub Keyed-put :
    (j : FailureKey) (times : List ℕ) (fs : Failures) → Keyed fs → Keyed (put_failures j times fs)
unfolding put_failures
Keyed-put j times [] u = (tt, tt)
Keyed-put j times ((i, old) ∷ fs) (f, u) = elim (Bool-cases (key_eq i j)) [
  | inl same ↦ rw same (f, u)
  | inr other ↦
      rw other (Fresh-put i j times fs (different_keys i j other) f, Keyed-put j times fs u)
]

pub Keyed-delete : (j : FailureKey) (fs : Failures) → Keyed fs → Keyed (delete_failures j fs)
unfolding delete_failures
Keyed-delete j [] u = tt
Keyed-delete j ((i, old) ∷ fs) (f, u) = elim (Bool-cases (key_eq i j)) [
  | inl same ↦ rw same (Keyed-delete j fs u)
  | inr other ↦ rw other (Fresh-delete i j fs f, Keyed-delete j fs u)
]

pub Keyed-prune_all :
    (jails : List Jail) (now : ℕ) (fs : Failures) → Keyed fs → Keyed (prune_all jails now fs)
unfolding prune_all
Keyed-prune_all jails now [] u = tt
Keyed-prune_all jails now ((j, times) ∷ fs) (f, u) =
    chosen (nat_eq (length (recent (find_time_from 0 jails j.jail) now times)) 0)
      (recent (find_time_from 0 jails j.jail) now times) (prune_all jails now fs)
      (Keyed-prune_all jails now fs u) (Fresh-prune_all jails now j fs f)
  where
    chosen :
        (b : Bool) (kept : List ℕ) (pruned : Failures)
        → Keyed pruned
        → Fresh j pruned
        → Keyed (if b then pruned else (j, kept) ∷ pruned)
    chosen true kept pruned v g = v
    chosen false kept pruned v g = (g, v)

-- Two maps of failures that no jail can tell apart from a time on.
abbrev pub Same : List Jail → ℕ → Failures → Failures → Type 0
Same jails now fs gs =
    (k : FailureKey) (later : ℕ)
    → now ≤ later
    → recent (find_time_from 0 jails k.jail) later (failures_of k fs)
      ≡ recent (find_time_from 0 jails k.jail) later (failures_of k gs)

pub Same-prune_all :
    (jails : List Jail) (before now : ℕ) (fs gs : Failures)
    → before ≤ now
    → Keyed fs
    → Same jails before fs gs
    → Same jails now (prune_all jails now fs) gs
Same-prune_all jails before now fs gs h u same k later l =
    ap (recent (find_time_from 0 jails k.jail) later) (failures_of-prune_all jails now k fs u)
    ∙ recent-recent (find_time_from 0 jails k.jail) now later (failures_of k fs) l
    ∙ same k later (omega arith)

pub Same-put :
    (jails : List Jail) (now : ℕ) (j : FailureKey) (times : List ℕ) (fs gs : Failures)
    → Same jails now fs gs
    → Same jails now (put_failures j times fs) (put_failures j times gs)
Same-put jails now j times fs gs same k later l = rw (failures_of-put k j times fs) (
    rw (failures_of-put k j times gs)
      (elim (Bool-cases (key_eq j k)) [ inl e ↦ rw e refl | inr o ↦ rw o (same k later l) ]))

pub Same-delete :
    (jails : List Jail) (now : ℕ) (j : FailureKey) (fs gs : Failures)
    → Same jails now fs gs
    → Same jails now (delete_failures j fs) (delete_failures j gs)
Same-delete jails now j fs gs same k later l = rw (failures_of-delete k j fs) (
    rw (failures_of-delete k j gs)
      (elim (Bool-cases (key_eq j k)) [ inl e ↦ rw e refl | inr o ↦ rw o (same k later l) ]))
