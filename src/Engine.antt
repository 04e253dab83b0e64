-- ===== src/Engine.antt =====
-- internal/cli/commands_rules.go: `setRuleEngine`, which adds, updates, inserts or removes one rule
-- in the list of one address family.
pub mod Frame
pub mod Unique
pub mod Passing
pub mod Spec
pub mod Groups
pub mod Insert
pub mod Members
use better_firewall.Prelude.{
  ℕ, suc, ◌+◌, Bool, true, false, not, ◌&&◌, ◌||◌, List, [], ◌∷◌, ◌++◌, String, ltb, ◌==◌, ℕ-eq,
  String-eq, if◌then◌else◌, ◌<>◌,
}
use better_firewall.Prelude.Int.{ltb_ℤ}
use better_firewall.Rule.{AddrSpec, Rule, any, MatchCode, match_none, match_exact, match_comment}
use better_firewall.Rule.{match, code}

pub data Outcome : Type 0 where
  out_added out_deleted out_updated out_inserted out_skip_add out_skip_insert : Outcome
  out_not_found : Outcome

-- status.go: `canonAddr`.
pub canon_addr : AddrSpec → Bool → String
canon_addr a v6 =
    if not (a.set == "")
    then "set " <> a.set
    else if any a
    then (if v6 then "::/0" else "0.0.0.0/0")
    else a.ip

-- The `[4]string` by which the engine compares the rules on both sides of a position.
pub record Group : Type 0 where
  pub dst : String
  pub src : String
  pub dapp : String
  pub sapp : String

abbrev pub no_group : Group
no_group = record { dst = ""; src = ""; dapp = ""; sapp = "" }

pub group_eq : Group → Group → Bool
group_eq a b = a.dst == b.dst && a.src == b.src && a.dapp == b.dapp && a.sapp == b.sapp

pub group_of : Bool → Rule → Group
group_of v6 r = record {
  dst = canon_addr r.dst v6;
  src = canon_addr r.src v6;
  dapp = r.dapp;
  sapp = r.sapp;
}

-- The variables of the loop.
pub record Walk : Type 0 where
  pub newrules : List Rule
  pub found : Bool
  pub modified : Bool
  pub inserted : Bool
  pub matches : ℕ
  pub count : ℕ
  pub pos : ℕ
  pub last : Group

abbrev pub start : ℕ → Walk
start pos = record {
  newrules = [];
  found = false;
  modified = false;
  inserted = false;
  matches = 0;
  count = 1;
  pos = pos;
  last = no_group;
}

-- May a rule be put between `last` and `current`? Not inside a group of one application profile.
pub splittable : ℕ → Group → Group → Bool
splittable count last current =
    last.dapp == "" && last.sapp == "" && ltb 1 count
    || current.dapp == "" && current.sapp == ""
    || not (group_eq last current)

-- The first half of a round: the insertion at the wanted position, or that position slides by one.
pub place : Rule → Group → Walk → Walk
place nr current w =
    if w.count == w.pos
    then if splittable w.count w.last current
      then record w { inserted = true; newrules = w.newrules ++ nr ∷ []; last = no_group }
      else record w { pos = w.pos + 1 }
    else w

-- Is the code below `MatchExact`, so that the tuple is the same and something else differs?
abbrev pub below_exact : MatchCode → Bool
below_exact c = ltb_ℤ (code c) (code match_exact)

abbrev pub below_none : MatchCode → Bool
below_none c = ltb_ℤ (code c) (code match_none)

abbrev pub is_exact : MatchCode → Bool
is_exact match_exact = true
is_exact _ = false

abbrev pub is_comment : MatchCode → Bool
is_comment match_comment = true
is_comment _ = false

-- The `switch` of a round, after `matches` was counted.
pub judge : Rule → Bool → MatchCode → Rule → Walk → Walk
judge nr remove ret r w =
    if is_exact ret && not w.found && not w.inserted
    then record w {
      found = true;
      newrules = if not remove then w.newrules ++ nr ∷ [] else w.newrules;
    }
    else if is_comment ret && remove && nr.comment == ""
    then record w { found = true }
    else if below_exact ret && not remove && not w.inserted
    then record w { found = true; modified = true; newrules = w.newrules ++ nr ∷ [] }
    else record w { newrules = w.newrules ++ r ∷ [] }

-- `last = current`, `count++`, and `matches++` if the tuple is the same.
abbrev pub tally : Group → MatchCode → Walk → Walk
tally current ret w = record w {
  last = current;
  count = w.count + 1;
  matches = if below_none ret then w.matches + 1 else w.matches;
}

pub visit : Rule → Bool → Walk → Rule → Walk
visit nr remove w r =
    let current = group_of nr.v6 r in
    let ret = match r nr in judge nr remove ret r (tally current ret (place nr current w))

pub walk : Rule → Bool → Walk → List Rule → Walk
walk nr remove w [] = w
walk nr remove w (r ∷ rs) = walk nr remove (visit nr remove w r) rs

-- What follows the loop.
pub finish : Rule → Bool → List Rule → Walk → List Rule × Outcome
finish nr remove list w =
    if w.inserted
    then if ltb 0 w.matches then (list, out_skip_insert) else (w.newrules, out_inserted)
    else let newrules = if not w.found && not remove then w.newrules ++ nr ∷ [] else w.newrules in
      if not w.found && remove
      then (list, out_not_found)
      else if w.found && not remove && not w.modified
      then (list, out_skip_add)
      else if remove
      then (newrules, out_deleted)
      else if w.modified
      then (newrules, out_updated)
      else (newrules, out_added)

-- `pos` is a natural number: `applyHalf`, the only caller, has refused the negative ones.
unfoldable pub set_rule_engine : List Rule → Rule → ℕ → Bool → List Rule × Outcome
unfolding walk visit place judge splittable group_eq group_of canon_addr finish
set_rule_engine list nr pos remove = finish nr remove list (walk nr remove (start pos) list)
