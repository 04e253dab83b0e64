-- ===== src/Commands/WellFormed.antt =====
-- Every rule command keeps the state well formed: no family has two rules of one tuple, and each
-- rule is marked with the family of its list.
use better_firewall.Prelude.{
  ℕ, ◌+◌, Bool, true, false, not, List, [], ◌∷◌, String, ◌≡◌, refl, arith, inl, inr, if◌then◌else◌,
  All, length, ℕ-eq, subst, Bool-cases, ◌==◌, String-eq, ◌&&◌, ◌||◌,
}
use better_firewall.Prelude.Int.{ℤ, pos, ltb_ℤ, pos_part}
use better_firewall.Rule.{Rule, set_v6, clone}
use better_firewall.Store.{State}
use better_firewall.Numbering.{is_app, mark_families}
use better_firewall.Engine.{set_rule_engine}
use better_firewall.Engine.Unique.{IsUnique, set_rule_engine-IsUnique}
use better_firewall.Engine.Members.{All-set_rule_engine}
use better_firewall.Commands.{
  OpKind, is_delete, is_insert, is_prepend, minus_one, Error, Result, ok, err, ◌>>=◌, rules_of,
  with_rules, skips, app_targets, apply_targets, apply_half, outcome_string, apply_dual, RuleOp,
  run_v4, run_v6, run_one, run_rules, run_rule_op, v4_position, v6_position,
}

-- Each rule of the list is marked with its family.
abbrev pub InFamily : Bool → List Rule → Type 0
InFamily v6 = All (λ r. r.v6 ≡ v6)

abbrev pub GoodList : Bool → List Rule → Type 0
GoodList v6 list = IsUnique list × InFamily v6 list

pub record IsWellFormed (st : State) : Type 0 where
  pub good4 : GoodList false st.rules4
  pub good6 : GoodList true st.rules6

-- What holds of the value that a command returns, if it returns one.
pub data Ensures {A : Type 0} (P : A → Type 0) : Result A → Type 0 where
  returned : {a : A} → P a → Ensures P (ok a)
  failed : {e : Error} → Ensures P (err e)

pub Ensures-bind :
    {A B : Type 0} {P : A → Type 0} {Q : B → Type 0} {m : Result A} {f : A → Result B}
    → Ensures P m
    → ((a : A) → P a → Ensures Q (f a))
    → Ensures Q (m >>= f)
Ensures-bind (returned p) k = k _ p
Ensures-bind failed k = failed

Ensures-any : {A : Type 0} (m : Result A) → Ensures (λ a. Unit {0}) m
Ensures-any (ok a) = returned tt
Ensures-any (err e) = failed

pub Ensures-if :
    {A : Type 0} {P : A → Type 0} (b : Bool) {x y : Result A}
    → Ensures P x
    → Ensures P y
    → Ensures P (if b then x else y)
Ensures-if true p q = p
Ensures-if false p q = q

pub Ensures-ok : {A : Type 0} (P : A → Type 0) (a : A) → Ensures P (ok a) → P a
Ensures-ok {A = A} P a h = go (ok a) h refl
  where
    go : (r : Result A) → Ensures P r → r ≡ ok a → P a
    go r (returned {a = b} p) e = subst P (cc) p
    go r failed e = cc

pub GoodList-of : (st : State) (v6 : Bool) → IsWellFormed st → GoodList v6 (rules_of st v6)
GoodList-of st true h = h.good6
GoodList-of st false h = h.good4

pub with_rules-IsWellFormed :
    (st : State) (v6 : Bool) (list : List Rule)
    → IsWellFormed st
    → GoodList v6 list
    → IsWellFormed (with_rules st v6 list)
with_rules-IsWellFormed st true list h g = record { good4 = h.good4; good6 = g }
with_rules-IsWellFormed st false list h g = record { good4 = g; good6 = h.good6 }

set_rule_engine-GoodList :
    (v6 : Bool) (list : List Rule) (nr : Rule) (p : ℕ) (remove : Bool)
    → nr.v6 ≡ v6
    → GoodList v6 list
    → GoodList v6 (set_rule_engine list nr p remove).0
set_rule_engine-GoodList v6 list nr p remove e (u, f) = (
  set_rule_engine-IsUnique list nr p remove u,
  All-set_rule_engine (λ r. r.v6 ≡ v6) nr e list p remove f,
)

app_targets-InFamily :
    (v6 : Bool) (nr : Rule) (list : List Rule)
    → InFamily v6 list
    → InFamily v6 (app_targets nr list)
unfolding app_targets
app_targets-InFamily v6 nr [] h = tt
app_targets-InFamily v6 nr (r ∷ rs) (q, h) = ground (arith, app_targets-InFamily v6 nr rs h)

apply_targets-IsWellFormed :
    (live : Bool) (st : State) (p : ℕ) (v6 remove : Bool) (last : String) (ts : List Rule)
    → IsWellFormed st
    → InFamily v6 ts
    → IsWellFormed (apply_targets live st p v6 remove last ts).0
unfolding apply_targets
apply_targets-IsWellFormed live st p v6 remove last [] h f = h
apply_targets-IsWellFormed live st p v6 remove last (t ∷ ts) h (q, f) =
    let (list, oc) = set_rule_engine (rules_of st v6) t p remove in
    let g = set_rule_engine-GoodList v6 (rules_of st v6) t p remove q (GoodList-of st v6 h) in
    let ih =
      apply_targets-IsWellFormed live (with_rules st v6 list) p v6 remove
        (outcome_string oc v6 live) ts (with_rules-IsWellFormed st v6 list h g) f in
    elim (Bool-cases (skips oc)) [ inl s ↦ rw s h | inr s ↦ rw s ih ]

abbrev pub WellFormedFirst : State × String → Type 0
WellFormedFirst done = IsWellFormed done.0

abbrev WellFormedNum : State × ℕ × String → Type 0
WellFormedNum done = IsWellFormed done.0

module _ (live : Bool) (nr : Rule) (kind : OpKind) where
  -- `applyHalf` keeps the state well formed, on every branch.
  apply_half-IsWellFormed :
      (st : State) (p : ℤ) (v6 : Bool)
      → IsWellFormed st
      → Ensures WellFormedFirst (apply_half live st nr p v6 kind)
  unfolding apply_half
  apply_half-IsWellFormed st p v6 h =
      let r = set_v6 (clone nr) v6 in
      let ts = app_targets r (rules_of st v6) in
      let one =
        apply_targets-IsWellFormed live st (pos_part p) v6 (is_delete kind) "" (r ∷ []) h
          (refl, tt) in
      let many =
        apply_targets-IsWellFormed live st (pos_part p) v6 (is_delete kind) "" ts h
          (app_targets-InFamily v6 r (rules_of st v6) (GoodList-of st v6 h).1) in
      Ensures-if (ltb_ℤ p (pos 0) || ltb_ℤ (pos (length (rules_of st v6))) p) failed (
        Ensures-if (ltb_ℤ (pos 0) p && is_delete kind) failed (
          Ensures-if (is_delete kind && is_app r)
            (Ensures-if (length ts == 0) (returned h) (returned many)) (returned one)))

  apply_dual-IsWellFormed :
      (st : State) (user_pos : ℤ) (count num_v4 num_v6 : ℕ)
      → IsWellFormed st
      → Ensures WellFormedNum (apply_dual live st nr user_pos count num_v4 num_v6 kind)
  unfolding apply_dual
  apply_dual-IsWellFormed st user_pos count num_v4 num_v6 h =
      Ensures-bind (apply_half-IsWellFormed st _ false h) λ half4 h4.
        Ensures-bind (apply_half-IsWellFormed half4.0 _ true h4) (λ half6 h6. returned h6)

module _ (live kernel6 : Bool) (op : RuleOp) (num_v6 : ℕ) where
  run_v4-IsWellFormed :
      (st : State) (num_v4 count : ℕ) (nr : Rule) (p : ℤ)
      → IsWellFormed st
      → Ensures WellFormedNum (run_v4 live op st num_v4 count nr p)
  unfolding run_v4
  run_v4-IsWellFormed st num_v4 count nr p h =
      Ensures-bind (Ensures-any (v4_position p count num_v4)) λ q _.
        Ensures-bind (apply_half-IsWellFormed live nr op.kind st q false h) (λ half h'. returned h')

  run_v6-IsWellFormed :
      (st : State) (num_v4 count : ℕ) (nr : Rule) (p : ℤ)
      → IsWellFormed st
      → Ensures WellFormedNum (run_v6 live op st num_v4 num_v6 count nr p)
  unfolding run_v6
  run_v6-IsWellFormed st num_v4 count nr p h =
      Ensures-bind (Ensures-any (v6_position p count num_v4 num_v6)) λ q _.
        Ensures-bind (apply_half-IsWellFormed live nr op.kind st q true h) (λ half h'. returned h')

  run_one-IsWellFormed :
      (st : State) (num_v4 count : ℕ) (nr : Rule)
      → IsWellFormed st
      → Ensures WellFormedNum (run_one live kernel6 op num_v6 st num_v4 count nr)
  unfolding run_one
  run_one-IsWellFormed st num_v4 count nr h =
      let p = if is_prepend op.kind then minus_one else op.num in
      let four = run_v4-IsWellFormed st num_v4 count nr p h in
      let six = run_v6-IsWellFormed st num_v4 count nr p h in
      let dual = apply_dual-IsWellFormed live nr op.kind st p count num_v4 num_v6 h in
      Ensures-if (is_insert op.kind && ltb_ℤ (pos (num_v4 + num_v6)) p) failed (
        Ensures-if (op.ip_type == "v4") four (
          Ensures-if (op.ip_type == "v6") (Ensures-if (not st.ipv6 || not kernel6) failed six)
            (Ensures-if (op.ip_type == "both") (Ensures-if st.ipv6 dual four) failed)))

  run_rules-IsWellFormed :
      (st : State) (num_v4 count : ℕ) (last : String) (rules : List Rule)
      → IsWellFormed st
      → Ensures WellFormedFirst (run_rules live kernel6 op num_v6 st num_v4 count last rules)
  unfolding run_rules
  run_rules-IsWellFormed st num_v4 count last [] h = returned h
  run_rules-IsWellFormed st num_v4 count last (nr ∷ rules) h =
      Ensures-bind (run_one-IsWellFormed st num_v4 count nr h)
        λ done h'. run_rules-IsWellFormed done.0 done.1 (count + 1) done.2 rules h'

-- If the loaded state, marked with the families, is well formed, then so is the state that an add,
-- insert, prepend or delete command hands to the commit: no two rules of one family have the same
-- tuple, and each rule is marked with the family of its list.
pub run_rule_op-IsWellFormed :
    (live kernel6 : Bool) (op : RuleOp) (loaded : State) (rules : List Rule) (done : State × String)
    → IsWellFormed (mark_families loaded)
    → run_rule_op live kernel6 op loaded rules ≡ ok done
    → IsWellFormed done.0
unfolding run_rule_op
run_rule_op-IsWellFormed live kernel6 op loaded rules done h e = Ensures-ok WellFormedFirst done (
    subst (Ensures WellFormedFirst) e
      (run_rules-IsWellFormed live kernel6 op _ (mark_families loaded) _ 0 "" rules h))
