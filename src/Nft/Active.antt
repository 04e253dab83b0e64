-- ===== src/Nft/Active.antt =====
-- internal/backend/nft/compile.go, compileRule: rules that are disabled or expired.
use better_firewall.Prelude.{
  ◌≡◌, refl, Bool, true, not, ◌||◌, List, [], ◌∷◌, keep, Bool-cases, inl, inr,
}
use better_firewall.Prelude.Int.{ℤ}
use better_firewall.Prelude.Result.{Result, ok, err, ◌>>=◌}
use better_firewall.Net.{NetText}
use better_firewall.Rule.{Rule, expired}
use better_firewall.Nft.Compiled.{Compiled, CompileError}
use better_firewall.Nft.UserRules.{compile_rule, compile_rules}

abbrev pub in_force : ℤ → Rule → Bool
in_force now r = not (r.disabled || expired r now)

module _ (net : NetText) (six : Bool) (now : ℤ) where
  idle_rule :
      (r : Rule) (c : Compiled)
      → (r.disabled || expired r now) ≡ true
      → compile_rule net r six now c ≡ ok c
  unfolding compile_rule
  idle_rule r c h = rw h refl

  pub bind_same :
      (m : Result CompileError Compiled) (f g : Compiled → Result CompileError Compiled)
      → ((c : Compiled) → f c ≡ g c)
      → (m >>= f) ≡ (m >>= g)
  bind_same (ok a) f g h = h a
  bind_same (err e) f g h = refl

  -- Rules that are disabled, or whose time is over, compile to nothing, wherever they stand: the list
  -- compiles like the list of the other rules, errors and set ids included.
  pub compile_rules-in_force :
      (rs : List Rule) (c : Compiled)
      → compile_rules net rs six now c ≡ compile_rules net (keep (in_force now) rs) six now c
  unfolding compile_rules
  compile_rules-in_force [] c = refl
  compile_rules-in_force (r ∷ rs) c = elim (Bool-cases (r.disabled || expired r now)) [
    | inl p ↦ rw (idle_rule r c p, p) (compile_rules-in_force rs c)
    | inr p ↦ rw p (
        bind_same (compile_rule net r six now c) (λ d. compile_rules net rs six now d)
          (λ d. compile_rules net (keep (in_force now) rs) six now d) (compile_rules-in_force rs))
  ]
