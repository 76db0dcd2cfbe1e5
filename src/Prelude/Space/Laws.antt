-- ===== src/Prelude/Space/Laws.antt =====
-- What `strings.TrimSpace` keeps.
use le_cli.Prelude.Lists.{All}
use le_cli.Prelude.Tests.{Bool-cases, ◌==◌}
use le_cli.Prelude.Text.{Bytes}
use le_cli.Prelude.Space.{space_width, trim_left_from, trim_right, trim_space, all_space}
use Prim.Native.Nat.{ℕ, zero, suc, ◌-◌}
use mathlib.Core.Logic.{inl, inr}
use mathlib.Core.List.{[], ◌∷◌}

module _ {ℓ} (P : ℕ → Type ℓ) where
  trim_left_from-All : (k : ℕ) (s : Bytes) → All P s → All P (trim_left_from k s)
  unfolding trim_left_from
  trim_left_from-All k [] h = tt
  trim_left_from-All (suc k) (c ∷ s) (hc, h) = trim_left_from-All k s h
  trim_left_from-All zero (c ∷ s) (hc, h) = elim (Bool-cases (space_width (c ∷ s) == 0)) [
    | inl e ↦ rw e (hc, h)
    | inr e ↦ rw e (trim_left_from-All (space_width (c ∷ s) - 1) s h)
  ]

  trim_right-All : (s : Bytes) → All P s → All P (trim_right s)
  unfolding trim_right
  trim_right-All [] h = tt
  trim_right-All (c ∷ s) (hc, h) = elim (Bool-cases (all_space (c ∷ s))) [
    | inl e ↦ rw e tt
    | inr e ↦ rw e (hc, trim_right-All s h)
  ]

  -- A property of every byte is kept.
  pub trim_space-All : (s : Bytes) → All P s → All P (trim_space s)
  unfolding trim_space
  trim_space-All s h = trim_right-All (trim_left_from 0 s) (trim_left_from-All 0 s h)
