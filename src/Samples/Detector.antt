-- ===== src/Samples/Detector.antt =====
-- A jail that bans after two failures, and a run of the detector.
use better_firewall.Prelude.{
  true, List, [], ◌∷◌, String, Option, none, some, ◌≡◌, refl, arith, All, ◌<>◌, ◌*◌, number_from,
  is_number, all_chars,
}
use better_firewall.Net.{v4, v6, Prefix, contains, unmap, without_zone}
use better_firewall.Prelude.Int.{pos}
use better_firewall.Protect.Detector.{
  Jail, Detector, observe, addr_eq, observe_jails, observe_jail, count_failure, ban_for, captured,
  matching_ip, mem_identifier, ignored, put_failures, delete_failures, failures_of, prune,
  prune_all, due, recent, key_eq, find_time_from,
}
use better_firewall.Protect.Detector.Accepted.{AcceptedAt, observe-AcceptedAt}
use better_firewall.Protect.Detector.Transparent.{Message, bans_of, plain_bans_of, bans_of_unpruned}
use better_firewall.Protect.Config.{parse_ignored}
use better_firewall.Protect.Config.Ignored.{parse_ignored_alone}
use better_firewall.Parser.{parse_expiry}
use better_firewall.Parser.Expiry.{within_int64, parse_expiry_units}
use better_firewall.Samples.NetTexts.{stroke_text, read_addr, read_strokes}

abbrev ssh_jail : Jail
ssh_jail = record {
  name = "ssh";
  identifiers = "sshd" ∷ [];
  patterns = record { re = "from (?P<ip>.*)"; ip_idx = 1 } ∷ [];
  max_retries = 2;
  find_time = 600000000000;
  ban_time = 3600000000000;
  ignore_ips = [];
}

-- The whole message is the address.
abbrev whole : String → String → Option (List String)
whole re message = some (message ∷ message ∷ [])

abbrev detector : Detector
detector = record { jails = ssh_jail ∷ []; failures = []; next_prune = none }

-- The detector behind one failure of 0.0.0.3, a second before.
abbrev failed_once : Detector
failed_once = record detector {
  failures = (record { jail = "ssh"; ip = v4 3 }, 4000000000 ∷ []) ∷ [];
}

-- Another failure of the address gives a ban.
second_failure :
    (observe stroke_text whole "sshd" "4111" 5000000000 failed_once).1
    ≡ record {
      address = stroke_text.show_addr (v4 3);
      source = "ssh:" <> "ssh";
      reason = "failed authentication";
      decision_id = pos 0;
      expires_at = pos 3605;
    }
      ∷ []
unfolding observe observe_jails observe_jail count_failure ban_for captured matching_ip
    mem_identifier ignored put_failures delete_failures failures_of prune prune_all due recent
    key_eq find_time_from stroke_text read_addr read_strokes unmap without_zone
second_failure = refl

observe-AcceptedAt_example :
    All
      (AcceptedAt stroke_text whole 5000000000)
      (observe stroke_text whole "sshd" "4111" 5000000000 failed_once).1
observe-AcceptedAt_example =
    observe-AcceptedAt stroke_text whole "sshd" "4111" 5000000000 failed_once
      ((omega arith, refl), tt)

parse_ignored_alone_example :
    (p : Prefix) × (parse_ignored stroke_text (stroke_text.show_addr (v4 3)) ≡ some p)
    × (contains p (v6 7 "") ≡ addr_eq (unmap (without_zone (v4 3))) (v6 7 ""))
parse_ignored_alone_example =
    parse_ignored_alone stroke_text (stroke_text.show_addr (v4 3)) (v4 3) (v6 7 "")
      (stroke_text.addr_no_prefix (v4 3)) (stroke_text.parse-show_addr (v4 3) (omega arith)) refl

known_number : is_number "90" ≡ true
unfolding all_chars
known_number = refl

parse_expiry_units_example :
    (parse_expiry ("90" <> "s") ≡ within_int64 (number_from 0 "90"))
    × (parse_expiry ("90" <> "m") ≡ within_int64 (number_from 0 "90" * 60))
    × (parse_expiry ("90" <> "h") ≡ within_int64 (number_from 0 "90" * (60 * 60)))
    × (parse_expiry ("90" <> "d") ≡ within_int64 (number_from 0 "90" * (24 * (60 * 60))))
parse_expiry_units_example = parse_expiry_units "90" known_number

-- Two failures of one address within the window, and a third after it.
abbrev messages : List Message
messages =
    record { identifier = "sshd"; text = "4111"; now = 5000000000 }
    ∷ record { identifier = "sshd"; text = "4111"; now = 6000000000 }
    ∷ record { identifier = "sshd"; text = "4111"; now = 900000000000 }
    ∷ []

bans_of_unpruned_example :
    bans_of stroke_text whole detector messages
    ≡ plain_bans_of stroke_text whole (ssh_jail ∷ []) [] messages
bans_of_unpruned_example =
    bans_of_unpruned stroke_text whole (ssh_jail ∷ []) none 0 messages (tt, tt)
      (omega arith, (omega arith, (omega arith, tt)))
