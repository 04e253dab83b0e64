-- ===== src/Protect/Config.antt =====
-- internal/protect/config.go: prefixes of the ignore lists and the polling interval. The durations
-- are read by time.ParseDuration, a parameter, in nanoseconds.
pub mod Ignored
use better_firewall.Prelude.{
  ℕ, Bool, true, false, String, Option, none, some, ◌==◌, String-eq, if◌then◌else◌,
}
use better_firewall.Prelude.Int.{ℤ, pos, leb_ℤ}
use better_firewall.Net.{NetText, Addr, Prefix, is4, unmap, without_zone, unmap_prefix}

abbrev pub full : Addr → Prefix
full a = record { addr = a; bits = if is4 a then 32 else 128 }

-- `parsePrefix`; `none` is its error.
pub parse_ignored : NetText → String → Option Prefix
parse_ignored net raw = elim (net.parse_prefix raw) [
  | some p ↦ unmap_prefix p
  | none ↦ elim (net.parse_addr raw) [ none ↦ none | some a ↦ some (full (unmap (without_zone a))) ]
]

-- `PollIntervalDuration`.
unfoldable pub poll_interval_duration : (String → Option ℤ) → String → Option ℤ
poll_interval_duration parse_duration interval =
    if interval == "" then some (pos 30000000000) else elim (parse_duration interval) [
      | none ↦ none
      | some d ↦ if leb_ℤ d (pos 0) then none else some d
    ]
