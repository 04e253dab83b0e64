-- ===== src/Nft/PortMatch.antt =====
-- internal/backend/nft/compile.go, appendPortExprs: which ports the expressions let pass, in the
-- kernel's reading of them. Keys are compared as numbers in the order of the wire; the elements of an
-- interval set are pairs of a start and an end, which is excluded, and 0 for the top.
use better_firewall.Prelude.{
  ℕ, zero, suc, ◌+◌, ◌*◌, ◌≤◌, ◌<◌, ◌≡◌, refl, sym, ◌∙◌, Bool, true, false, not, ◌&&◌, ◌||◌, List,
  [], ◌∷◌, ◌++◌, String, ltb, leb, ◌==◌, ℕ-eq, if◌then◌else◌, keep, map, arith, All, All-keep,
  Bool-cases, inl, inr, ◌⊎◌, Option, none, some, String-eq, or_false, All-append, subst,
}
use better_firewall.Rule.{PortRange}
use better_firewall.Nft.Expr.{
  Expr, payload, reg_1, transport, cmp_eq, range, set_lookup, bytes, NftSet, SetElement,
}
use better_firewall.Nft.Match.{port_data, port_payload}
use better_firewall.Nft.Compiled.{Compiled}
use better_firewall.Nft.Rules.{
  port_interval_elems, multi, any_multi, port_elements, port_exprs, applies, append_port_exprs,
  port_set,
}
use better_firewall.Nft.Ids.{ids_to, Numbered}

abbrev pub number : List ℕ → ℕ
number (a ∷ b ∷ []) = a * 256 + b
number _ = 0

unfoldable pub in_keys : ℕ → List SetElement → Bool
in_keys x [] = false
in_keys x (e ∷ es) = number e.key == x || in_keys x es

unfoldable pub in_pairs : ℕ → List SetElement → Bool
in_pairs x [] = false
in_pairs x (e ∷ []) = false
in_pairs x (s ∷ e ∷ es) =
    leb (number s.key) x && (number e.key == 0 || ltb x (number e.key)) || in_pairs x es

-- The first port that an end excludes.
abbrev pub end_of : List ℕ → ℕ
end_of k = if number k == 0 then 65536 else number k

-- The interval from `s` to `e` overlaps none of the pairs.
unfoldable pub clear_of : ℕ → ℕ → List SetElement → Bool
clear_of s e [] = true
clear_of s e (a ∷ []) = true
clear_of s e (a ∷ b ∷ es) = (leb e (number a.key) || leb (end_of b.key) s) && clear_of s e es

-- The kernel takes the elements of an interval set only if no two intervals overlap.
unfoldable pub loads : List SetElement → Bool
unfolding clear_of
loads [] = true
loads (a ∷ []) = true
loads (a ∷ b ∷ es) = clear_of (number a.key) (end_of b.key) es && loads es

-- The set of an id is one that the kernel takes, and holds the port.
unfoldable pub in_set : ℕ → ℕ → List (NftSet × List SetElement) → Bool
unfolding in_keys in_pairs loads
in_set x id [] = false
in_set x id ((s, es) ∷ sets) =
    let rest = in_set x id sets in
    if s.id == id then (if s.interval then loads es && in_pairs x es else in_keys x es) else rest

-- The ports of a packet, at the start of its transport header: the source port, then the destination
-- port, of two bytes each.
pub record Ports : Type 0 where
  pub sport : ℕ
  pub dport : ℕ

-- What the load of two bytes into the register gives; other loads are of no port.
unfoldable pub loaded : Ports → Expr → Option ℕ
loaded h (payload reg_1 transport offset size) =
    if not (size == 2)
    then none
    else if offset == 0
    then some h.sport
    else if offset == 2
    then some h.dport
    else none
loaded h _ = none

-- The test of the register behind the load.
unfoldable pub passes_value : List (NftSet × List SetElement) → Option ℕ → List Expr → Bool
unfolding in_set
passes_value sets (some x) (cmp_eq (bytes k) ∷ []) = number k == x
passes_value sets (some x) (range lo hi ∷ []) = leb (number lo) x && leb x (number hi)
passes_value sets (some x) (set_lookup name id ∷ []) = in_set x id sets
passes_value sets _ _ = false

unfoldable pub passes : List (NftSet × List SetElement) → Ports → List Expr → Bool
unfolding loaded passes_value
passes sets h [] = true
passes sets h (load ∷ es) = passes_value sets (loaded h load) es

abbrev pub port_of : String → Ports → ℕ
port_of which h = if which == "dport" then h.dport else h.sport

abbrev pub in_range : ℕ → PortRange → Bool
in_range x p = leb p.lo x && leb x p.hi

unfoldable pub in_ranges : ℕ → List PortRange → Bool
in_ranges x [] = false
in_ranges x (p ∷ ps) = in_range x p || in_ranges x ps

-- No restriction, or a port in one of the ranges.
abbrev pub allowed : ℕ → List PortRange → Bool
allowed x [] = true
allowed x (p ∷ ps) = in_ranges x (p ∷ ps)

abbrev pub IsRange : PortRange → Type 0
IsRange p = (p.lo ≤ p.hi) × (p.hi < 65536)

-- The range has no port of another one.
abbrev pub Apart : PortRange → List PortRange → Type 0
Apart p [] = Unit
Apart p (q ∷ qs) = ((p.hi < q.lo) ⊎ (q.hi < p.lo)) × Apart p qs

-- No two ranges have a port in common.
abbrev pub Disjoint : List PortRange → Type 0
Disjoint [] = Unit
Disjoint (p ∷ ps) = Apart p ps × Disjoint ps

number-port_data : (p : ℕ) → p < 65536 → number (port_data p) ≡ p
unfolding port_data
number-port_data p h = omega arith

-- The pair of a range, with the end of 65535 written as 0.
pair_lem :
    (x lo hi : ℕ)
    → x < 65536
    → lo ≤ hi
    → hi < 65536
    → (leb (number (port_data lo)) x
        && (number (port_data (if hi == 65535 then 0 else hi + 1)) == 0
            || ltb x (number (port_data (if hi == 65535 then 0 else hi + 1)))))
      ≡ (leb lo x && leb x hi)
pair_lem x lo hi h le lt = elim (Bool-cases (hi == 65535)) [
  | inl e ↦
      let top = (ℕ-eq.same_iff hi 65535).0 e in
      rw (e, number-port_data lo (omega arith), number-port_data 0 (omega arith))
        (ground (arith, top))
  | inr e ↦
      let small : hi + 1 < 65536 = grind (arith, e) in
      rw (e, number-port_data lo (omega arith), number-port_data (hi + 1) small) (ground arith)
]

in_pairs-elements :
    (x : ℕ) (ps : List PortRange)
    → x < 65536
    → All IsRange ps
    → in_pairs x (port_elements true ps) ≡ in_ranges x ps
unfolding in_pairs in_ranges port_elements port_interval_elems
in_pairs-elements x [] h a = refl
in_pairs-elements x (p ∷ ps) h ((le, lt), a) =
    rw (pair_lem x p.lo p.hi h le lt, in_pairs-elements x ps h a) refl

end_of-elem :
    (hi : ℕ) → hi < 65536 → end_of (port_data (if hi == 65535 then 0 else hi + 1)) ≡ hi + 1
end_of-elem hi lt = elim (Bool-cases (hi == 65535)) [
  | inl e ↦
      let top = (ℕ-eq.same_iff hi 65535).0 e in
      rw (e, number-port_data 0 (omega arith)) (omega (arith, top))
  | inr e ↦
      let small : hi + 1 < 65536 = grind (arith, e) in
      let some_port : (hi + 1 == 0) ≡ false = ground arith in
      rw (e, number-port_data (hi + 1) small, some_port) refl
]

clear_of-elements :
    (p : PortRange) (ps : List PortRange)
    → Apart p ps
    → All IsRange ps
    → clear_of p.lo (p.hi + 1) (port_elements true ps) ≡ true
unfolding clear_of port_elements port_interval_elems
clear_of-elements p [] d a = refl
clear_of-elements p (q ∷ qs) (o, d) ((le, lt), a) =
    rw (number-port_data q.lo (omega arith), end_of-elem q.hi lt, clear_of-elements p qs d a)
      (ground (arith, o))

loads-elements :
    (ps : List PortRange) → Disjoint ps → All IsRange ps → loads (port_elements true ps) ≡ true
unfolding loads port_elements port_interval_elems
loads-elements [] d a = refl
loads-elements (p ∷ ps) (o, d) ((le, lt), a) =
    rw (number-port_data p.lo (omega arith), end_of-elem p.hi lt, clear_of-elements p ps o a)
      (loads-elements ps d a)

single_lem :
    (x : ℕ) (p : PortRange)
    → multi p ≡ false
    → IsRange p
    → (number (port_data p.lo) == x) ≡ in_range x p
unfolding multi
single_lem x p m (le, lt) = rw (number-port_data p.lo (omega arith)) (ground (arith, m))

in_keys-elements :
    (x : ℕ) (ps : List PortRange)
    → any_multi ps ≡ false
    → All IsRange ps
    → in_keys x (port_elements false ps) ≡ in_ranges x ps
unfolding in_keys in_ranges port_elements any_multi
in_keys-elements x [] m a = refl
in_keys-elements x (p ∷ ps) m (v, a) =
    let (one, rest) = or_false (multi p) (any_multi ps) m in
    rw (single_lem x p one v, in_keys-elements x ps rest a) refl

All-le : (m n : ℕ) (ns : List ℕ) → m ≤ n → All (λ i. i ≤ m) ns → All (λ i. i ≤ n) ns
All-le m n [] h a = tt
All-le m n (i ∷ ns) h (p, a) = (omega arith, All-le m n ns h a)

ids_to-le : (n : ℕ) → All (λ i. i ≤ n) (ids_to n)
ids_to-le zero = tt
ids_to-le (suc n) =
    All-append (λ i. i ≤ suc n) (ids_to n) (suc n ∷ [])
      (All-le n (suc n) (ids_to n) (omega arith) (ids_to-le n)) (omega arith, tt)

-- The set that was added last is found by its id.
in_set-last :
    (x n : ℕ) (sets : List (NftSet × List SetElement)) (s : NftSet) (es : List SetElement)
    → s.id ≡ suc n
    → All (λ i. i ≤ n) (map (λ (s : NftSet × List SetElement). s.0.id) sets)
    → in_set x (suc n) (sets ++ ((s, es) ∷ []))
      ≡ (if s.interval then loads es && in_pairs x es else in_keys x es)
unfolding in_set
in_set-last x n [] s es e a =
    let t : (s.id == suc n) ≡ true = (ℕ-eq.same_iff s.id (suc n)).1 e in rw t refl
in_set-last x n ((s', es') ∷ sets) s es e (p, a) =
    let f : (s'.id == suc n) ≡ false = ground (arith, p) in rw f (in_set-last x n sets s es e a)

-- The load of the named port.
loaded-port_payload :
    (which : String) (h : Ports) → loaded h (port_payload which) ≡ some (port_of which h)
unfolding loaded port_payload
loaded-port_payload which h = go (which == "dport")
  where
    go :
        (b : Bool)
        → loaded h (payload reg_1 transport (if b then 2 else 0) 2)
          ≡ some (if b then h.dport else h.sport)
    go true = refl
    go false = refl

port_exprs-passes :
    (h : Ports) (ps : List PortRange) (which : String) (c : Compiled)
    → port_of which h < 65536
    → All IsRange ps
    → Disjoint ps
    → Numbered c
    → passes (port_exprs ps which c).1.sets h (port_exprs ps which c).0
      ≡ allowed (port_of which h) ps
unfolding passes passes_value port_exprs in_ranges
port_exprs-passes h [] which c x a d n = refl
port_exprs-passes h (p ∷ []) which c x ((le, lt), _) d n = elim (Bool-cases (p.lo == p.hi)) [
  | inl e ↦
      let same = (ℕ-eq.same_iff p.lo p.hi).0 e in
      rw (e, loaded-port_payload which h, number-port_data p.lo (omega arith))
        (ground (arith, same))
  | inr e ↦
      rw
        (
          e,
          loaded-port_payload which h,
          number-port_data p.lo (omega arith),
          number-port_data p.hi lt,
        )
        (ground arith)
]
port_exprs-passes h (p ∷ q ∷ ps) which c x a d n = rw (loaded-port_payload which h) (
    in_set-last (port_of which h) c.set_id c.sets (port_set (suc c.set_id) (any_multi (p ∷ q ∷ ps)))
      _ refl (subst (All (λ i. i ≤ c.set_id)) (sym n) (ids_to-le c.set_id))
    ∙ elements (any_multi (p ∷ q ∷ ps)) refl)
  where
    elements :
        (b : Bool)
        → any_multi (p ∷ q ∷ ps) ≡ b
        → (if b
            then loads (port_elements b (p ∷ q ∷ ps))
              && in_pairs (port_of which h) (port_elements b (p ∷ q ∷ ps))
            else in_keys (port_of which h) (port_elements b (p ∷ q ∷ ps)))
          ≡ in_ranges (port_of which h) (p ∷ q ∷ ps)
    elements true e =
        rw (loads-elements (p ∷ q ∷ ps) d a) (in_pairs-elements (port_of which h) (p ∷ q ∷ ps) x a)
    elements false e = in_keys-elements (port_of which h) (p ∷ q ∷ ps) e a

pub append_port_exprs-passes :
    (h : Ports) (ports : List PortRange) (which proto : String) (c : Compiled)
    → port_of which h < 65536
    → All IsRange ports
    → Disjoint (keep (applies proto) ports)
    → Numbered c
    → passes
        (append_port_exprs ports which proto c).1.sets
        h
        (append_port_exprs ports which proto c).0
      ≡ allowed (port_of which h) (keep (applies proto) ports)
unfolding append_port_exprs
append_port_exprs-passes h ports which proto c x a d n =
    port_exprs-passes h (keep (applies proto) ports) which c x
      (All-keep IsRange (applies proto) ports a) d n
