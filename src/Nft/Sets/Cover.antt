-- ===== src/Nft/Sets/Cover.antt =====
-- internal/backend/nft/compile.go, compileAddressSet: the addresses in a set.
use better_firewall.Prelude.{
  ℕ, suc, ◌-◌, ◌^◌, ◌<◌, ◌≡◌, refl, sym, ◌∙◌, Bool, true, false, ◌||◌, List, [], ◌∷◌, ◌++◌, String,
  Option, none, some, All, arith, ap, Option-cases, inl, inr, String-eq,
}
use better_firewall.Prelude.Result.{Result, ok, err}
use better_firewall.Net.{Addr, v4, v6, NetText, in_prefix}
use better_firewall.Nft.Expr.{ipv4_addr, ipv6_addr}
use better_firewall.Nft.Match.{parse_addr_or_prefix}
use better_firewall.Nft.Compiled.{Compiled, CompileError, bad_element}
use better_firewall.Nft.Intervals.{Interval, merge_addr_intervals, interval_elements}
use better_firewall.Nft.Intervals.Merge.{covered, covered-merge, covered-merge_lem, HasEnd}
use better_firewall.Nft.Intervals.Gaps.{Separated, merge-Separated}
use better_firewall.Nft.Intervals.Prefixes.{holds-prefix_interval, HasEnd-prefix_interval}
use better_firewall.Nft.Sets.{
  Families, add_interval, element_intervals, compile_address_set, interval_set,
}

-- A family by whether it is IPv6: its width, its addresses, and its intervals.
abbrev pub width : Bool → ℕ
width false = 32
width true = 128

abbrev pub address : Bool → ℕ → Addr
address false x = v4 x
address true x = v6 x ""

abbrev pub family : Bool → Families → List Interval
family false f = f.iv4
family true f = f.iv6

covered-add_interval :
    (six : Bool) (x : ℕ) (a : Addr) (bits : ℕ) (f : Families)
    → x < 2 ^ width six
    → covered x (family six (add_interval a bits f))
      ≡ (in_prefix bits a (address six x) || covered x (family six f))
unfolding covered add_interval in_prefix
covered-add_interval false x (v4 n) bits f h = rw (holds-prefix_interval 32 n bits x h) refl
covered-add_interval false x (v6 n zone) bits f h = refl
covered-add_interval true x (v4 n) bits f h = refl
covered-add_interval true x (v6 n zone) bits f h = rw (holds-prefix_interval 128 n bits x h) refl

All-add_interval :
    (six : Bool) (a : Addr) (bits : ℕ) (f : Families)
    → covered (2 ^ width six - 1) (family six (add_interval a bits f)) ≡ false
    → All HasEnd (family six f)
    → All HasEnd (family six (add_interval a bits f))
unfolding covered add_interval
All-add_interval false (v4 n) bits f h k = (HasEnd-prefix_interval 32 n bits (grind arith), k)
All-add_interval false (v6 n zone) bits f h k = k
All-add_interval true (v4 n) bits f h k = k
All-add_interval true (v6 n zone) bits f h k = (HasEnd-prefix_interval 128 n bits (grind arith), k)

abbrev pub in_element : Option (Addr × ℕ) → Addr → Bool
in_element none ip = false
in_element (some (a, bits)) ip = in_prefix bits a ip

module _ (net : NetText) where
  -- One of the texts is an address or prefix that holds the address.
  unfoldable pub listed : Addr → List String → Bool
  listed ip [] = false
  listed ip (e ∷ es) = in_element (parse_addr_or_prefix net e) ip || listed ip es

  -- The intervals hold the addresses of the elements.
  abbrev pub Covers : List String → Families → Type 0
  Covers es f =
      (six : Bool) (x : ℕ)
      → x < 2 ^ width six
      → covered x (family six f) ≡ listed (address six x) es

  Covers-add :
      (e : String) (es : List String) (a : Addr) (bits : ℕ) (f : Families)
      → parse_addr_or_prefix net e ≡ some (a, bits)
      → Covers es f
      → Covers (e ∷ es) (add_interval a bits f)
  unfolding listed
  Covers-add e es a bits f p c six x h = rw p (
      covered-add_interval six x a bits f h
      ∙ ap (λ b. in_prefix bits a (address six x) || b) (c six x h))

  -- Without the last address of the family, no interval reaches the top.
  abbrev pub Ends : List String → Families → Type 0
  Ends es f =
      (six : Bool) → listed (address six (2 ^ width six - 1)) es ≡ false → All HasEnd (family six f)

  Ends-add :
      (e : String) (es : List String) (a : Addr) (bits : ℕ) (f : Families)
      → Covers (e ∷ es) (add_interval a bits f)
      → Ends es f
      → Ends (e ∷ es) (add_interval a bits f)
  unfolding listed
  Ends-add e es a bits f c k six h =
      All-add_interval six a bits f (c six (2 ^ width six - 1) (below_top six) ∙ h)
        (k six (grind (arith, h)))
    where
      below_top : (six : Bool) → 2 ^ width six - 1 < 2 ^ width six
      below_top false = omega arith
      below_top true = omega arith

  -- The first element that is neither an address nor a prefix.
  unfoldable pub unreadable : List String → Option String
  unreadable [] = none
  unreadable (e ∷ es) = elim (parse_addr_or_prefix net e) [ none ↦ some e | some p ↦ unreadable es ]

  unreadable-cons :
      (e : String) (es : List String) (p : Addr × ℕ)
      → parse_addr_or_prefix net e ≡ some p
      → unreadable (e ∷ es) ≡ unreadable es
  unfolding unreadable
  unreadable-cons e es p q = ground (arith, q)

  element_intervals-cons :
      (source e : String) (es : List String) (a : Addr) (bits : ℕ) (f : Families)
      → parse_addr_or_prefix net e ≡ some (a, bits)
      → element_intervals net source es ≡ ok f
      → element_intervals net source (e ∷ es) ≡ ok (add_interval a bits f)
  unfolding element_intervals
  element_intervals-cons source e es a bits f p q = rw (element_intervals, p, q) refl

  unreadable-here :
      (e : String) (es : List String)
      → parse_addr_or_prefix net e ≡ none
      → unreadable (e ∷ es) ≡ some e
  unfolding unreadable
  unreadable-here e es p = ground (arith, p)

  element_intervals-Covers :
      (es : List String)
      → unreadable es ≡ none
      → (f : Families) × ((source : String) → element_intervals net source es ≡ ok f)
        × Covers es f
        × Ends es f
  unfolding element_intervals covered listed
  element_intervals-Covers [] h =
      (record { iv4 = []; iv6 = [] }, λ source. refl, go, λ six h. none_given six)
    where
      go : Covers [] (record { iv4 = []; iv6 = [] })
      go false x k = refl
      go true x k = refl

      none_given : (six : Bool) → All HasEnd (family six (record { iv4 = []; iv6 = [] }))
      none_given false = tt
      none_given true = tt
  element_intervals-Covers (e ∷ es) h = elim (Option-cases (parse_addr_or_prefix net e)) [
    | inl p ↦ absurd (grind (arith, h, unreadable-here e es p))
    | inr ((a, bits), p) ↦
        let (f, q, c, k) =
          element_intervals-Covers es (sym (unreadable-cons e es (a, bits) p) ∙ h) in
        let c' = Covers-add e es a bits f p c in
        (
          add_interval a bits f,
          λ source. element_intervals-cons source e es a bits f p (q source),
          c',
          Ends-add e es a bits f c' k,
        )
  ]

  abbrev intervals_in : Bool → Result CompileError Families → List Interval
  intervals_in six (ok f) = merge_addr_intervals (family six f)
  intervals_in six (err e) = []

  -- The intervals of the addresses of one family in a list of texts.
  unfoldable pub intervals_of : Bool → List String → List Interval
  unfolding element_intervals
  intervals_of six es = intervals_in six (element_intervals net "" es)

  -- The two sets that are added for a list of texts.
  abbrev pub with_sets : String → String → List String → Compiled → Compiled
  with_sets name4 name6 es c = record c {
    set_id = suc (suc c.set_id);
    sets =
        (c.sets
          ++ ((
            interval_set name4 (suc c.set_id) ipv4_addr,
            interval_elements 4 (intervals_of false es),
          )
              ∷ []))
        ++ ((
          interval_set name6 (suc (suc c.set_id)) ipv6_addr,
          interval_elements 16 (intervals_of true es),
        )
            ∷ []);
  }

  pub compile_address_set-with_sets :
      (name4 name6 source : String) (es : List String) (c : Compiled)
      → unreadable es ≡ none
      → compile_address_set net name4 name6 source es c ≡ ok (with_sets name4 name6 es c)
  unfolding compile_address_set intervals_of
  compile_address_set-with_sets name4 name6 source es c h =
      let (f, q, _, _) = element_intervals-Covers es h in rw (q source, q "") refl

  pub intervals_of-Separated : (six : Bool) (es : List String) → Separated (intervals_of six es)
  unfolding intervals_of
  intervals_of-Separated six es = go (element_intervals net "" es)
    where
      go : (m : Result CompileError Families) → Separated (intervals_in six m)
      go (ok f) = (merge-Separated (family six f)).0
      go (err e) = tt

  -- Where every text is an address or a prefix, an address in the intervals is held by one of them.
  pub covered-listed :
      (six : Bool) (es : List String) (x : ℕ)
      → unreadable es ≡ none
      → x < 2 ^ width six
      → covered x (intervals_of six es) ≡ true
      → listed (address six x) es ≡ true
  unfolding intervals_of
  covered-listed six es x h p k =
      let (f, q, c, _) = element_intervals-Covers es h in
      sym (c six x p)
      ∙ covered-merge_lem x (family six f)
          (sym (ap (λ m. covered x (intervals_in six m)) (q "")) ∙ k)

  -- ... and if none holds the family's last address, the intervals hold every address that is held.
  pub covered-intervals_of :
      (six : Bool) (es : List String) (x : ℕ)
      → unreadable es ≡ none
      → x < 2 ^ width six
      → listed (address six (2 ^ width six - 1)) es ≡ false
      → covered x (intervals_of six es) ≡ listed (address six x) es
  unfolding intervals_of
  covered-intervals_of six es x h p l =
      let (f, q, c, k) = element_intervals-Covers es h in
      ap (λ m. covered x (intervals_in six m)) (q "")
      ∙ covered-merge x (family six f) (k six l)
      ∙ c six x p

  -- Where every text of a set is an address or a prefix, and none holds the last address of a family,
  -- `compileAddressSet` adds two sets with the next two ids, and the intervals of that family's set
  -- neither overlap nor touch, and hold an address exactly when one of the texts does.
  pub compile_address_set-covers :
      (six : Bool) (name4 name6 source : String) (es : List String) (c : Compiled) (x : ℕ)
      → unreadable es ≡ none
      → x < 2 ^ width six
      → listed (address six (2 ^ width six - 1)) es ≡ false
      → (compile_address_set net name4 name6 source es c ≡ ok (with_sets name4 name6 es c))
        × Separated (intervals_of six es)
        × (covered x (intervals_of six es) ≡ listed (address six x) es)
  compile_address_set-covers six name4 name6 source es c x h p l = (
    compile_address_set-with_sets name4 name6 source es c h,
    intervals_of-Separated six es,
    covered-intervals_of six es x h p l,
  )

  element_intervals-unreadable :
      (source : String) (es : List String) (bad : String)
      → unreadable es ≡ some bad
      → element_intervals net source es ≡ err (bad_element source bad)
  unfolding element_intervals unreadable
  element_intervals-unreadable source [] bad h = absurd (ground (arith, h))
  element_intervals-unreadable source (e ∷ es) bad h =
      elim (Option-cases (parse_addr_or_prefix net e)) [
        | inl p ↦
            rw (element_intervals, p)
              (ap (λ b. err (bad_element source b)) (grind (arith, h, unreadable-here e es p)))
        | inr ((a, bits), p) ↦
            let q =
              element_intervals-unreadable source es bad
                (sym (unreadable-cons e es (a, bits) p) ∙ h) in
            rw (element_intervals, p, q) refl
      ]

  -- Where some text of a set is neither an address nor a prefix, `compileAddressSet` fails with an
  -- error that names the first such text.
  pub compile_address_set-bad :
      (name4 name6 source : String) (es : List String) (c : Compiled) (bad : String)
      → unreadable es ≡ some bad
      → compile_address_set net name4 name6 source es c ≡ err (bad_element source bad)
  unfolding compile_address_set
  compile_address_set-bad name4 name6 source es c bad h =
      rw (element_intervals-unreadable source es bad h) refl
