-- ===== src/Samples/Threats.antt =====
-- Runs of the polling loop and of the batches.
use better_firewall.Prelude.{
  true, false, [], ◌∷◌, none, some, ◌≡◌, ◌≢◌, refl, arith, inl, String-eq,
}
use better_firewall.Prelude.Int.{pos}
use better_firewall.Store.{State, ThreatBan, defaults}
use better_firewall.Net.{v6, unmap_prefix}
use better_firewall.Net.Mapped.{unmap_prefix-ne-none}
use better_firewall.Protect.Threats.{Update, apply_threat_update_to_state}
use better_firewall.Protect.Threats.Rejects.{Fails, apply_threat_update_to_state-Fails}
use better_firewall.Protect.Threats.Local.{
  local_bans, Ensures, apply_threat_update_to_state-local_bans,
}
use better_firewall.Protect.Polling.{Poll, Round, poll_all}
use better_firewall.Protect.Polling.Wedge.{poll_all_wedged}
use better_firewall.Samples.NetTexts.{stroke_text}

-- The address 0.0.0.3 in strokes.
abbrev crowd_ban : ThreatBan
crowd_ban = record {
  address = "4111";
  source = "crowdsec";
  reason = "scan";
  decision_id = pos 7;
  expires_at = pos 100;
}

abbrev jail_ban : ThreatBan
jail_ban = record {
  address = "411";
  source = "ssh:sshd";
  reason = "failed authentication";
  decision_id = pos 0;
  expires_at = pos 500;
}

abbrev batch : Update
batch = record { snapshot = false; add = crowd_ban ∷ []; delete_ids = [] }

abbrev banned : State
banned = record defaults { bans = jail_ban ∷ [] }

abbrev late_round : Round
late_round = record {
  response = none;
  clock = 200000000000;
  locked = true;
  loaded = some banned;
  now = pos 200;
  commits = λ st. true;
}

abbrev stuck : Poll
stuck = record { startup = false; pending = some batch }

poll_all_wedged_example :
    poll_all stroke_text (λ d. none) stuck (late_round ∷ late_round ∷ []) ≡ stuck
poll_all_wedged_example =
    poll_all_wedged stroke_text (λ d. none) (late_round ∷ late_round ∷ []) (pos 150) false batch
      (inl (omega arith)) (omega arith, (omega arith, tt))

apply_threat_update_to_state-Fails_example :
    Fails (apply_threat_update_to_state stroke_text banned batch (pos 200))
apply_threat_update_to_state-Fails_example =
    apply_threat_update_to_state-Fails stroke_text banned batch (pos 200) (inl (omega arith))

apply_threat_update_to_state-local_bans_example :
    Ensures
      (λ r. local_bans (r.0).bans ≡ local_bans banned.bans)
      (apply_threat_update_to_state stroke_text banned batch (pos 50))
apply_threat_update_to_state-local_bans_example =
    apply_threat_update_to_state-local_bans stroke_text banned batch (pos 50) (refl, tt)

unmap_prefix-ne-none_example :
    unmap_prefix (record { addr = v6 281470681743360 ""; bits = 90 }) ≢ none
unmap_prefix-ne-none_example =
    unmap_prefix-ne-none (record { addr = v6 281470681743360 ""; bits = 90 })
