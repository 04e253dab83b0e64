-- ===== src/Numbering/Laws.antt =====
-- Which numbers name a rule.
use mathlib.Core.Option
use better_firewall.Prelude.{
  ℕ, suc, ◌+◌, Bool, true, false, List, [], ◌∷◌, ◌++◌, String, Option, none, some, if◌then◌else◌,
  ◌≡◌, refl, arith, ◌∙◌, Bool-cases, inl, inr, length, get_elem?, ap, map, zero, sym,
  get_elem?-append_left, get_elem?-append_right, get_elem?-cases, get_elem?-map, length-map,
}
use better_firewall.Prelude.Int.{ℤ, pos, ℤ_eq}
use better_firewall.Rule.{Rule}
use better_firewall.Store.{State}
use better_firewall.Numbering.{see, repeated, count_from, Scan, found, passed, scan, rule_by_number}

-- The rules that are shown, one for each group, with their indices.
shown : List String → ℕ → List Rule → List ℕ
shown seen i [] = []
shown seen i (r ∷ rs) =
    let skip = shown seen (i + 1) rs in
    let next = shown (see seen r) (i + 1) rs in if repeated seen r then skip else i ∷ next

groups : List String → List Rule → List String
groups seen [] = seen
groups seen (r ∷ rs) =
    let skip = groups seen rs in
    let next = groups (see seen r) rs in if repeated seen r then skip else next

length-shown :
    (seen : List String) (i : ℕ) (rs : List Rule) → length (shown seen i rs) ≡ count_from seen rs
unfolding shown count_from
length-shown seen i [] = refl
length-shown seen i (r ∷ rs) =
    ground (arith, length-shown seen (i + 1) rs, length-shown (see seen r) (i + 1) rs)

-- What the loop returns, by the entry that the wanted number has among the rules that are shown.
abbrev looked_up : Option ℕ → Scan → Scan
looked_up none s = s
looked_up (some k) s = found k

scan-shown :
    (n : ℕ) (seen : List String) (count i : ℕ) (rs : List Rule)
    → scan (pos (count + n)) seen count i rs
      ≡ looked_up
          (get_elem? (shown seen i rs) n)
          (passed (groups seen rs) (count + length (shown seen i rs)))
unfolding shown scan groups
scan-shown n seen count i [] = ap (passed seen) (omega arith)
scan-shown n seen count i (r ∷ rs) = elim (Bool-cases (repeated seen r)) [
  | inl old ↦ rw old (scan-shown n seen count (i + 1) rs)
  | inr new ↦
      rw new
        (elim n
          as (λ m.
            (if ℤ_eq (pos count) (pos (count + m))
              then found i
              else scan (pos (count + m)) (see seen r) (count + 1) (i + 1) rs)
            ≡ looked_up (get_elem? (i ∷ shown (see seen r) (i + 1) rs) m) (
                passed (groups (see seen r) rs)
                  (count + suc (length (shown (see seen r) (i + 1) rs))))) [
                    | zero ↦ ground arith
                    | suc m ↦
                        let ih = scan-shown m (see seen r) (count + 1) (i + 1) rs in
                        let e : count + suc m ≡ count + 1 + m = omega arith in
                        let f : count + suc (length (shown (see seen r) (i + 1) rs))
                            ≡ count + 1 + length (shown (see seen r) (i + 1) rs) =
                          omega arith in
                        rw (e, f) (ground (arith, ih))
                  ])
]

-- The rules of both families in the order in which they are shown, as their index and family.
pub displayed : State → List (ℕ × Bool)
displayed st =
    map (λ i. (i, false)) (shown [] 0 st.rules4)
    ++ map (λ i. (i, true)) (shown (groups [] st.rules4) 0 st.rules6)

by_family : (st : State) (num : ℤ) → Scan → Option (ℕ × Bool)
by_family st num (found i) = some (i, false)
by_family st num (passed seen count) = elim (scan num seen count 0 st.rules6) [
  | found i ↦ some (i, true)
  | passed _ _ ↦ none
]

rule_by_number_lem :
    (st : State) (num : ℤ) → rule_by_number st num ≡ by_family st num (scan num [] 1 0 st.rules4)
unfolding rule_by_number by_family
rule_by_number_lem st num = ground arith

from_scan : Scan → Option (ℕ × Bool)
from_scan (found i) = some (i, true)
from_scan (passed _ _) = none

from_scan-looked_up :
    (o : Option ℕ) (seen : List String) (count : ℕ)
    → from_scan (looked_up o (passed seen count)) ≡ Option.map (λ i. (i, true)) o
unfolding from_scan
from_scan-looked_up none seen count = refl
from_scan-looked_up (some k) seen count = refl

by_family-passed :
    (st : State) (num : ℤ) (seen : List String) (count : ℕ)
    → by_family st num (passed seen count) ≡ from_scan (scan num seen count 0 st.rules6)
unfolding by_family from_scan
by_family-passed st num seen count = ground arith

abbrev first_family : List ℕ → List (ℕ × Bool)
first_family = map (λ (i : ℕ). (i, false))

abbrev second_family : List ℕ → List (ℕ × Bool)
second_family = map (λ (i : ℕ). (i, true))

displayed_left :
    (xs ys : List ℕ) (n k : ℕ)
    → get_elem? xs n ≡ some k
    → get_elem? (first_family xs ++ second_family ys) n ≡ some (k, false)
displayed_left xs ys n k e =
    get_elem?-append_left (first_family xs) (second_family ys) n
      (get_elem?-map (λ (i : ℕ). (i, false)) xs n ∙ rw e)

displayed_right :
    (xs ys : List ℕ) (m : ℕ)
    → get_elem? (first_family xs ++ second_family ys) (length xs + m)
      ≡ Option.map (λ (i : ℕ). (i, true)) (get_elem? ys m)
displayed_right xs ys m =
    ap (λ k. get_elem? (first_family xs ++ second_family ys) (k + m))
      (sym (length-map xs (λ (i : ℕ). (i, false))))
    ∙ get_elem?-append_right (first_family xs) (second_family ys) m
    ∙ get_elem?-map (λ (i : ℕ). (i, true)) ys m

-- The number n + 1 names the entry n of the rules as they are shown, all of the first family before
-- those of the second and one for each application group; a number beyond them names none.
pub rule_by_number-displayed :
    (st : State) (n : ℕ) → rule_by_number st (pos (1 + n)) ≡ get_elem? (displayed st) n
unfolding displayed by_family
rule_by_number-displayed st n = elim (get_elem?-cases (shown [] 0 st.rules4) n) [
  | inl (k, e) ↦
      rw (rule_by_number_lem st (pos (1 + n)), scan-shown n [] 1 0 st.rules4, e)
        (sym
          (displayed_left (shown [] 0 st.rules4) (shown (groups [] st.rules4) 0 st.rules6) n k e))
  | inr (m, e, f) ↦
      let xs = shown [] 0 st.rules4 in
      let ys = shown (groups [] st.rules4) 0 st.rules6 in
      rule_by_number_lem st (pos (1 + n))
      ∙ ap (by_family st (pos (1 + n))) (
          let all : scan (pos (1 + n)) [] 1 0 st.rules4
              ≡ passed (groups [] st.rules4) (1 + length xs) =
            scan-shown n [] 1 0 st.rules4 ∙ rw f in
          all)
      ∙ by_family-passed st (pos (1 + n)) (groups [] st.rules4) (1 + length xs)
      ∙ ap (λ k. from_scan (scan (pos k) (groups [] st.rules4) (1 + length xs) 0 st.rules6))
          (let q : 1 + n ≡ 1 + length xs + m = omega arith in q)
      ∙ ap from_scan (scan-shown m (groups [] st.rules4) (1 + length xs) 0 st.rules6)
      ∙ from_scan-looked_up (get_elem? ys m) _ _
      ∙ sym (displayed_right xs ys m)
      ∙ ap (get_elem? (first_family xs ++ second_family ys)) (sym e)
]
