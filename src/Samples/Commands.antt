-- ===== src/Samples/Commands.antt =====
-- Runs of the rule commands.
use better_firewall.Prelude.{true, false, [], ◌∷◌, ◌≡◌, refl, All}
use better_firewall.Prelude.Int.{pos}
use better_firewall.Rule.{Rule, set_v6, expired}
use better_firewall.Engine.Unique.{IsUnique, set_rule_engine-IsUnique}
use better_firewall.Store.{State, ThreatBan, defaults}
use better_firewall.Numbering.{mark_families, deduped_count, repeated}
use better_firewall.Commands.{
  op_prepend, op_insert, RuleOp, ok, run_rule_op, run_rules, run_one, run_v4, v4_position,
  v6_position, apply_dual, apply_half, apply_targets, dual_pos4, dual_num_v4, dual_pos6,
  find_other_position, outcome_string, app_targets,
}
use better_firewall.Commands.WellFormed.{IsWellFormed, run_rule_op-IsWellFormed}
use better_firewall.Commands.Removal.{
  delete_by_number-IsWellFormed, sweep_expired-IsWellFormed, InTime, IsLater,
}
use better_firewall.Commands.{delete_by_number, delete_at, remove_at, sweep_expired}
use better_firewall.Numbering.{rule_by_number, scan, contains}
use better_firewall.Samples.{
  ssh, web, two_rules, sampled, nothing-IsUnique, two_rules-IsUnique, allow,
}

abbrev prepend_both : RuleOp
prepend_both = record { kind = op_prepend; num = pos 0; ip_type = "both" }

abbrev insert_second : RuleOp
insert_second = record { kind = op_insert; num = pos 2; ip_type = "v4" }

abbrev loaded : State
loaded = record defaults { rules4 = two_rules }

abbrev prepended : State
prepended = record defaults {
  rules4 = allow 443 ∷ two_rules;
  rules6 = set_v6 (allow 443) true ∷ [];
}

ran : Unit {0}
unfolding run_rule_op run_rules run_one run_v4 v4_position v6_position apply_dual apply_half
    apply_targets dual_pos4 dual_num_v4 dual_pos6 find_other_position mark_families deduped_count
    outcome_string app_targets defaults
ran = tt

loaded-IsWellFormed : IsWellFormed (mark_families loaded)
unfolding ran
loaded-IsWellFormed = record {
  good4 = (two_rules-IsUnique, (refl, (refl, tt)));
  good6 = (nothing-IsUnique, tt);
}

run_prepend :
    run_rule_op true true prepend_both loaded (allow 443 ∷ [])
    ≡ ok (prepended, "Rule inserted\nRule added (v6)")
unfolding ran sampled repeated
run_prepend = refl

run_rule_op-IsWellFormed_example : IsWellFormed prepended
run_rule_op-IsWellFormed_example =
    run_rule_op-IsWellFormed true true prepend_both loaded (allow 443 ∷ [])
      (prepended, "Rule inserted\nRule added (v6)") loaded-IsWellFormed run_prepend

abbrev deleted : State
deleted = record defaults { rules4 = ssh ∷ [] }

run_delete : delete_by_number true loaded (pos 2) ≡ ok (deleted, "Rule deleted")
unfolding ran sampled repeated delete_by_number delete_at remove_at rule_by_number scan contains
run_delete = refl

delete_by_number-IsWellFormed_example : IsWellFormed deleted
delete_by_number-IsWellFormed_example =
    delete_by_number-IsWellFormed true loaded (pos 2) (deleted, "Rule deleted") loaded-IsWellFormed
      run_delete

-- Two rules, of which the second is over at 5.
abbrev over : Rule
over = record web { expires_at = pos 3 }

abbrev aged : State
aged = record defaults {
  rules4 = ssh ∷ over ∷ [];
  bans =
      record {
        address = "4";
        source = "local";
        reason = "";
        decision_id = pos 0;
        expires_at = pos 5;
      }
      ∷ [];
}

aged-IsUnique : IsUnique (ssh ∷ over ∷ [])
unfolding sampled
aged-IsUnique =
    set_rule_engine-IsUnique (ssh ∷ []) over 0 false
      (set_rule_engine-IsUnique [] ssh 0 false nothing-IsUnique)

aged-IsWellFormed : IsWellFormed aged
unfolding defaults
aged-IsWellFormed = record {
  good4 = (aged-IsUnique, (refl, (refl, tt)));
  good6 = (nothing-IsUnique, tt);
}

swept : sweep_expired (pos 5) aged ≡ record defaults { rules4 = ssh ∷ [] }
unfolding sweep_expired expired defaults
swept = refl

sweep_expired-IsWellFormed_example :
    IsWellFormed (sweep_expired (pos 5) aged)
    × All (InTime (pos 5)) (sweep_expired (pos 5) aged).rules4
    × All (InTime (pos 5)) (sweep_expired (pos 5) aged).rules6
    × All (λ (b : ThreatBan). IsLater (pos 5) b.expires_at) (sweep_expired (pos 5) aged).bans
sweep_expired-IsWellFormed_example = sweep_expired-IsWellFormed (pos 5) aged aged-IsWellFormed
