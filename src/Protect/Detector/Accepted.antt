-- ===== src/Protect/Detector/Accepted.antt =====
-- The bans of the jails against the checks on threat bans.
use Prim.Native.String.append
use Prim.Native.String.compare
use text.Mathlib.Text.{is_eq}
use better_firewall.Prelude.{
  ℕ, ◌+◌, ◌/◌, ◌%◌, ◌^◌, ◌≤◌, Bool, true, false, not, List, [], ◌∷◌, ◌++◌, String, Option, none,
  some, ltb, leb, length, nat_eq, ◌==◌, ℕ-eq, String-eq, if◌then◌else◌, All, All-append, get_elem?,
  ◌<>◌, ◌≡◌, refl, arith, ap, sym, ◌∙◌, subst, strip_prefix,
}
use better_firewall.Prelude.Int.{pos}
use better_firewall.Store.{ThreatBan}
use better_firewall.Net.{NetText, Addr, v4, v6, IsAddr, is4in6, unmap, without_zone}
use better_firewall.Protect.Threats.{
  ok, is_jail_source, canonical_ban_address, check_source, check_ban,
}
use better_firewall.Protect.Detector.{
  mem_identifier, ignored, recent, failures_of, put_failures, delete_failures, key_of, Pattern,
  Jail, Failures, Detector, prune, captured, matching_ip, ban_for, count_failure, observe_jail,
  observe_jails, observe,
}

-- What Validate asks of a jail, as far as it matters for its bans.
abbrev pub Configured : Jail → Type 0
Configured jail = (1000000000 ≤ jail.ban_time) × ((jail.name == "") ≡ false)

-- The addresses without zone that are not IPv4-mapped.
abbrev Plain : Addr → Type 0
Plain ip = IsAddr ip × (unmap (without_zone ip) ≡ ip)

unmap-Plain : (a : Addr) → IsAddr a → Plain (unmap (without_zone a))
unfolding unmap without_zone is4in6
unmap-Plain (v4 n) b = (b, refl)
unmap-Plain (v6 n zone) b = chosen (nat_eq (n / 2 ^ 32) 65535) refl
  where
    chosen :
        (c : Bool) → nat_eq (n / 2 ^ 32) 65535 ≡ c → Plain (if c then v4 (n % 2 ^ 32) else v6 n "")
    chosen true e = (omega arith, refl)
    chosen false e = (b, rw e refl)

-- What was found, if anything, is such an address.
abbrev Found : Option Addr → Type 0
Found none = Unit
Found (some ip) = Plain ip

ssh_name :
    (name : String)
    → "ssh:" <> name ≡ String.◌∷◌ "s" (String.◌∷◌ "s" (String.◌∷◌ "h" (String.◌∷◌ ":" name)))
ssh_name name =
    append.cons "s" "sh:" name
    ∙ ap (String.◌∷◌ "s") (
        append.cons "s" "h:" name
        ∙ ap (String.◌∷◌ "s") (
            append.cons "h" ":" name
            ∙ ap (String.◌∷◌ "h")
                (append.cons ":" "" name ∙ ap (String.◌∷◌ ":") (append.nil name))))

source_of : (name : String) → (name == "") ≡ false → is_jail_source ("ssh:" <> name) ≡ true
unfolding is_jail_source strip_prefix
source_of name h = ap is_jail_source (ssh_name name) ∙ ap not h

not_crowdsec : (name : String) → (("ssh:" <> name) == "crowdsec") ≡ false
not_crowdsec name =
    ap (λ (s : String). s == "crowdsec") (ssh_name name)
    ∙ ap is_eq (
        compare.cons-cons "s" "c" (String.◌∷◌ "s" (String.◌∷◌ "h" (String.◌∷◌ ":" name))) "rowdsec")

module _ (net : NetText) (submatch : String → String → Option (List String)) where
  captured-Found : (p : Pattern) (message : String) → Found (captured net submatch p message)
  unfolding captured
  captured-Found p message = of_groups (submatch p.re message)
    where
      read :
          (o : Option Addr)
          → ((a : Addr) → o ≡ some a → IsAddr a)
          → Found (elim o [ none ↦ none | some a ↦ some (unmap (without_zone a)) ])
      read none h = tt
      read (some a) h = unmap-Plain a (h a refl)

      of_text :
          (o : Option String)
          → Found (elim o [
            | none ↦ none
            | some text ↦ elim (net.parse_addr text) [
              | none ↦ none
              | some a ↦ some (unmap (without_zone a))
            ]
          ])
      of_text none = tt
      of_text (some text) = read (net.parse_addr text) (net.parse_addr-IsAddr text)

      of_groups :
          (o : Option (List String))
          → Found (elim o [
            | none ↦ none
            | some groups ↦ elim (get_elem? groups p.ip_idx) [
              | none ↦ none
              | some text ↦ elim (net.parse_addr text) [
                | none ↦ none
                | some a ↦ some (unmap (without_zone a))
              ]
            ]
          ])
      of_groups none = tt
      of_groups (some groups) = of_text (get_elem? groups p.ip_idx)

  matching_ip-Found :
      (ps : List Pattern) (message : String) → Found (matching_ip net submatch ps message)
  unfolding matching_ip
  matching_ip-Found [] message = tt
  matching_ip-Found (p ∷ ps) message =
      first (captured net submatch p message) (captured-Found p message)
        (matching_ip net submatch ps message) (matching_ip-Found ps message)
    where
      first :
          (o : Option Addr)
          → Found o
          → (rest : Option Addr) → Found rest
          → Found (elim o [ none ↦ rest | some a ↦ some a ])
      first none h rest g = g
      first (some a) h rest g = h

  canonical_ban_address_shown :
      (ip : Addr) → Plain ip → canonical_ban_address net (net.show_addr ip) ≡ ok (net.show_addr ip)
  unfolding canonical_ban_address
  canonical_ban_address_shown ip (b, e) =
      rw (canonical_ban_address, net.addr_no_prefix ip)
        (rw (net.parse-show_addr ip b) (ap (λ a. ok (net.show_addr a)) e))

  check_ban-ban_for :
      (jail : Jail) (ip : Addr) (now : ℕ)
      → Configured jail
      → Plain ip
      → check_ban net (pos (now / 1000000000)) (ban_for net submatch jail ip now)
        ≡ ok (ban_for net submatch jail ip now)
  unfolding check_ban check_source ban_for
  check_ban-ban_for jail ip now (b, n) p =
      let later : leb ((now + jail.ban_time) / 1000000000 + 0) (now / 1000000000 + 0) ≡ false =
        ground arith in
      rw later (
        rw (canonical_ban_address_shown ip p)
          (rw (not_crowdsec jail.name) (rw (source_of jail.name n) refl)))

  -- The threat-ban checks take a ban as it is.
  abbrev pub AcceptedAt : ℕ → ThreatBan → Type 0
  AcceptedAt now ban = check_ban net (pos (now / 1000000000)) ban ≡ ok ban

  abbrev Sound : ℕ → Failures × List ThreatBan → Type 0
  Sound now r = All (AcceptedAt now) r.1

  Sound-if :
      (now : ℕ) (b : Bool) (x y : Failures × List ThreatBan)
      → Sound now x
      → Sound now y
      → Sound now (if b then x else y)
  Sound-if now true x y p q = p
  Sound-if now false x y p q = q

  count_failure-Sound :
      (jail : Jail) (ip : Addr) (now : ℕ) (fs : Failures)
      → Configured jail
      → Plain ip
      → Sound now (count_failure net submatch jail ip now fs)
  unfolding count_failure
  count_failure-Sound jail ip now fs c p =
      let times : List ℕ =
        recent jail.find_time now (failures_of (key_of jail ip) fs) ++ now ∷ [] in
      Sound-if now (ltb (length times) jail.max_retries)
        (put_failures (key_of jail ip) times fs, [])
        (delete_failures (key_of jail ip) fs, ban_for net submatch jail ip now ∷ []) tt
        (check_ban-ban_for jail ip now c p, tt)

  observe_jail-Sound :
      (identifier message : String) (now : ℕ) (jail : Jail) (fs : Failures)
      → Configured jail
      → Sound now (observe_jail net submatch identifier message now jail fs)
  unfolding observe_jail
  observe_jail-Sound identifier message now jail fs c =
      Sound-if now (not (mem_identifier identifier jail.identifiers)) (fs, [])
        (elim (matching_ip net submatch jail.patterns message) [
          | none ↦ (fs, [])
          | some ip ↦
              if ignored ip jail.ignore_ips
              then (fs, [])
              else count_failure net submatch jail ip now fs
        ])
        tt
        (counted (matching_ip net submatch jail.patterns message)
          (matching_ip-Found jail.patterns message))
    where
      counted :
          (o : Option Addr)
          → Found o
          → Sound now (elim o [
            | none ↦ (fs, [])
            | some ip ↦
                if ignored ip jail.ignore_ips
                then (fs, [])
                else count_failure net submatch jail ip now fs
          ])
      counted none h = tt
      counted (some ip) h =
          Sound-if now (ignored ip jail.ignore_ips) (fs, [])
            (count_failure net submatch jail ip now fs) tt (count_failure-Sound jail ip now fs c h)

  observe_jails-Sound :
      (identifier message : String) (now : ℕ) (jails : List Jail) (fs : Failures)
      → All Configured jails
      → Sound now (observe_jails net submatch identifier message now jails fs)
  unfolding observe_jails
  observe_jails-Sound identifier message now [] fs c = tt
  observe_jails-Sound identifier message now (jail ∷ jails) fs (c, cs) =
      let first = observe_jail net submatch identifier message now jail fs in
      All-append (AcceptedAt now) first.1 _ (observe_jail-Sound identifier message now jail fs c)
        (observe_jails-Sound identifier message now jails first.0 cs)

  jails-prune : (now : ℕ) (d : Detector) → (prune now d).jails ≡ d.jails
  unfolding prune
  jails-prune now d = ground arith

  -- If every jail has a name and bans for at least a second, then each ban that an observed message
  -- gives passes the checks on threat bans at that time, and is stored as it is.
  pub observe-AcceptedAt :
      (identifier message : String) (now : ℕ) (d : Detector)
      → All Configured d.jails
      → All (AcceptedAt now) (observe net submatch identifier message now d).1
  unfolding observe
  observe-AcceptedAt identifier message now d c =
      observe_jails-Sound identifier message now (prune now d).jails (prune now d).failures
        (subst (All Configured) (sym (jails-prune now d)) c)
