-- ===== src/Nft/Frame.antt =====
-- internal/backend/nft/compile.go: what the steps of the compilation leave alone, once every chain of
-- the program has been created.
pub mod Chains
pub mod Match
pub mod User
pub mod Fixed
pub mod Before
pub mod Steps
pub mod Nat
use mathlib.Core.List.{append-nil, append_assoc}
use better_firewall.Prelude.{
  ℕ, ◌≡◌, refl, sym, subst, ◌∙◌, ap, Bool, true, false, ◌&&◌, ◌||◌, List, [], ◌∷◌, ◌++◌, String,
  ◌==◌, String-eq, arith, if◌then◌else◌, and_true, and_intro,
}
use better_firewall.Prelude.Result.{Result, ok, err, ◌>>=◌, Ensures, Ensures-bind, Ensures-map}
use better_firewall.Nft.Expr.{Expr, Verdict, verdict, jump_to, Table, inet_table, NftRule}
use better_firewall.Nft.Compiled.{
  Compiled, CompileError, is_named, chain, add_rule, add_rule_object, add_rules,
}

-- The targets of the jumps have names of a list.
abbrev pub jump_in : List String → Expr → Bool
jump_in names (verdict (jump_to name)) = is_named name names
jump_in names _ = true

unfoldable pub jumps_in : List String → List Expr → Bool
unfolding is_named
jumps_in names [] = true
jumps_in names (e ∷ es) = jump_in names e && jumps_in names es

-- Rules stand in chains of one list, and jump to chains of another.
unfoldable pub all_within : List String → List String → List (String × List Expr) → Bool
unfolding is_named jumps_in
all_within chains targets [] = true
all_within chains targets ((name, exprs) ∷ rules) =
    is_named name chains && jumps_in targets exprs && all_within chains targets rules

abbrev pub inet_rules : List (String × List Expr) → List NftRule
inet_rules [] = []
inet_rules ((name, exprs) ∷ rules) =
    record { table = inet_table; chain = name; exprs = exprs } ∷ inet_rules rules

pub named_here : (n : String) (ns : List String) → is_named n (n ∷ ns) ≡ true
unfolding is_named
named_here n ns = let e : (n == n) ≡ true = (String-eq.same_iff n n).1 refl in rw e refl

pub named_there :
    (n m : String) (ns : List String) → is_named n ns ≡ true → is_named n (m ∷ ns) ≡ true
unfolding is_named
named_there n m ns h = ground (arith, h)

pub all_within-cons :
    (chains targets : List String) (name : String) (exprs : List Expr)
    (rules : List (String × List Expr))
    → is_named name chains ≡ true
    → jumps_in targets exprs ≡ true
    → all_within chains targets rules ≡ true
    → all_within chains targets ((name, exprs) ∷ rules) ≡ true
unfolding all_within
all_within-cons chains targets name exprs rules p q h = rw (p, q, h) refl

-- Only the rules, the sets and their ids are changed: `rules` is appended to the rules.
abbrev pub Appends : List (String × List Expr) → Compiled → Compiled → Type 0
Appends rules c d =
    (d.rules ≡ c.rules ++ inet_rules rules)
    × (d.chains ≡ c.chains)
    × (d.chain_index ≡ c.chain_index)
    × (d.nat_tables ≡ c.nat_tables)

-- ... with rules that stand in chains of one list and jump to chains of another.
abbrev pub Adds : List String → List String → Compiled → Compiled → Type 0
Adds chains targets c d =
    (rules : List (String × List Expr)) × (all_within chains targets rules ≡ true)
    × Appends rules c d

pub all_within-append :
    (chains targets : List String) (rs qs : List (String × List Expr))
    → all_within chains targets (rs ++ qs)
      ≡ (all_within chains targets rs && all_within chains targets qs)
unfolding all_within
all_within-append chains targets [] qs = refl
all_within-append chains targets ((name, exprs) ∷ rs) qs =
    ground (arith, all_within-append chains targets rs qs)

pub inet_rules-append :
    (rs qs : List (String × List Expr)) → inet_rules (rs ++ qs) ≡ inet_rules rs ++ inet_rules qs
inet_rules-append [] qs = refl
inet_rules-append ((name, exprs) ∷ rs) qs =
    ap (λ l. record { table = inet_table; chain = name; exprs = exprs } ∷ l)
      (inet_rules-append rs qs)

and_assoc : (a b c : Bool) → (a && (b && c)) ≡ (a && b && c)
and_assoc a b c = ground arith

pub jumps_in-append :
    (names : List String) (es fs : List Expr)
    → jumps_in names (es ++ fs) ≡ (jumps_in names es && jumps_in names fs)
unfolding jumps_in
jumps_in-append names [] fs = refl
jumps_in-append names (e ∷ es) fs =
    ap (λ b. jump_in names e && b) (jumps_in-append names es fs)
    ∙ and_assoc (jump_in names e) (jumps_in names es) (jumps_in names fs)

-- Every name of the first list is in the second.
abbrev pub Within : List String → List String → Type 0
Within names more = (n : String) → is_named n names ≡ true → is_named n more ≡ true

pub Within-same :
    (names : List String) (c d : Compiled)
    → d.chain_index ≡ c.chain_index
    → Within names c.chain_index
    → Within names d.chain_index
Within-same names c d e w = subst (Within names) (sym e) w

jump_in-Within :
    (names more : List String) (e : Expr)
    → Within names more
    → jump_in names e ≡ true
    → jump_in more e ≡ true
jump_in-Within names more (verdict (jump_to n)) w h = w n h
jump_in-Within names more _ w h = refl

pub jumps_in-Within :
    (names more : List String) (es : List Expr)
    → Within names more
    → jumps_in names es ≡ true
    → jumps_in more es ≡ true
unfolding jumps_in
jumps_in-Within names more [] w h = refl
jumps_in-Within names more (e ∷ es) w h =
    let (p, q) = and_true (jump_in names e) (jumps_in names es) h in
    and_intro (jump_in more e) (jumps_in more es) (jump_in-Within names more e w p)
      (jumps_in-Within names more es w q)

pub all_within-Within :
    (chains more targets more_targets : List String) (rs : List (String × List Expr))
    → Within chains more
    → Within targets more_targets
    → all_within chains targets rs ≡ true
    → all_within more more_targets rs ≡ true
unfolding all_within
all_within-Within chains more targets more_targets [] v w h = refl
all_within-Within chains more targets more_targets ((name, exprs) ∷ rs) v w h =
    let k = all_within-Within chains more targets more_targets rs v w in
    grind (arith, h, v name, jumps_in-Within targets more_targets exprs w, k)

-- A rule of a chain that exists is appended.
add_rule_named :
    (name : String) (exprs : List Expr) (c : Compiled)
    → is_named name c.chain_index ≡ true
    → add_rule name exprs c ≡ add_rule_object inet_table name exprs c
unfolding add_rule chain
add_rule_named name exprs c h = rw h refl

pub Appends-refl : (c : Compiled) → Appends [] c c
Appends-refl c = (sym (append-nil c.rules), refl, refl, refl)

pub Appends-trans :
    (c d e : Compiled) (rs rs' : List (String × List Expr))
    → Appends rs c d
    → Appends rs' d e
    → Appends (rs ++ rs') c e
Appends-trans c d e rs rs' (q, a, b, n) (q', a', b', n') = (
  q'
      ∙ ap (λ l. l ++ inet_rules rs') q
      ∙ append_assoc c.rules (inet_rules rs) (inet_rules rs')
      ∙ ap (λ l. c.rules ++ l) (sym (inet_rules-append rs rs')),
  a' ∙ a,
  b' ∙ b,
  n' ∙ n,
)

module _ (chains targets : List String) where
  pub Adds-refl : (c : Compiled) → Adds chains targets c c
  unfolding all_within
  Adds-refl c = ([], refl, Appends-refl c)

  pub Adds-trans :
      (c d e : Compiled)
      → Adds chains targets c d
      → Adds chains targets d e
      → Adds chains targets c e
  Adds-trans c d e (rs, p, a) (rs', p', a') = (
    rs ++ rs',
    rw (all_within-append chains targets rs rs', p, p') refl,
    Appends-trans c d e rs rs' a a',
  )

  -- A step that reads a result.
  pub Adds-bind :
      (c : Compiled) (m : Result CompileError Compiled)
      (f : Compiled → Result CompileError Compiled)
      → Ensures (Adds chains targets c) m
      → ((d : Compiled) → d.chain_index ≡ c.chain_index → Ensures (Adds chains targets d) (f d))
      → Ensures (Adds chains targets c) (m >>= f)
  Adds-bind c m f h k = Ensures-bind (Adds chains targets c) (Adds chains targets c) m f h λ d a.
      Ensures-map (Adds chains targets d) (Adds chains targets c) (f d) (λ e. Adds-trans c d e a)
        (k d a.2.2)

  pub add_rules-Adds :
      (rs : List (String × List Expr)) (c : Compiled)
      → Within chains c.chain_index
      → all_within chains targets rs ≡ true
      → Adds chains targets c (add_rules rs c)
  unfolding add_rules all_within
  add_rules-Adds [] c w h = Adds-refl c
  add_rules-Adds ((name, exprs) ∷ rs) c w h =
      let d = add_rule_object inet_table name exprs c in
      let (p, q) =
        and_true (is_named name chains && jumps_in targets exprs) (all_within chains targets rs)
          h in
      let (p', p'') = and_true (is_named name chains) (jumps_in targets exprs) p in
      let one : Adds chains targets c d =
        ((name, exprs) ∷ [], rw (p', p'') refl, (refl, refl, refl, refl)) in
      rw (add_rules, add_rule_named name exprs c (w name p'))
        (Adds-trans c d (add_rules rs d) one (add_rules-Adds rs d w q))
