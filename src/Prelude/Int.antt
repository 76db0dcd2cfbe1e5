-- ===== src/Prelude/Int.antt =====
-- Go's `int` values as signed integers over the native numbers. `negsuc n` is -(n + 1).
use le_cli.Prelude.Tests.{ltb, leb, ◌==◌, if◌then◌else◌, Bool-cases, ltb→lt, lt→ltb}
use Prim.Native.Nat.{ℕ, suc, ◌+◌, ◌-◌, ◌≤◌, ◌<◌}
use mathlib.Core.Path.{refl, ◌≡◌, sym}
use mathlib.Core.Logic.{◌↔◌, ◌≢◌, inl, ◌⊎◌, inr}
use mathlib.Core.Bool.{Bool, true, false}
use native.Mathlib.Omega.{arith}

pub data ℤ : Type 0 where
  pos : ℕ → ℤ
  negsuc : ℕ → ℤ

abbrev pub pos_part : ℤ → ℕ
pos_part (pos n) = n
pos_part (negsuc n) = 0

abbrev pub neg_part : ℤ → ℕ
neg_part (pos n) = 0
neg_part (negsuc n) = suc n

abbrev pub sub_ℕ : ℕ → ℕ → ℤ
sub_ℕ a b = if leb b a then pos (a - b) else negsuc (b - a - 1)

abbrev pub opp : ℤ → ℤ
opp a = sub_ℕ (neg_part a) (pos_part a)

infixl 65 ◌+ℤ◌
unfoldable pub ◌+ℤ◌ : ℤ → ℤ → ℤ
a +ℤ b = sub_ℕ (pos_part a + pos_part b) (neg_part a + neg_part b)

infix 50 ◌≤ℤ◌
abbrev pub ◌≤ℤ◌ : ℤ → ℤ → Type 0
a ≤ℤ b = pos_part a + neg_part b ≤ pos_part b + neg_part a

abbrev pub ltb_ℤ : ℤ → ℤ → Bool
ltb_ℤ a b = ltb (pos_part a + neg_part b) (pos_part b + neg_part a)

abbrev pub leb_ℤ : ℤ → ℤ → Bool
leb_ℤ a b = leb (pos_part a + neg_part b) (pos_part b + neg_part a)

unfoldable pub eqb_ℤ : ℤ → ℤ → Bool
eqb_ℤ (pos a) (pos b) = a == b
eqb_ℤ (negsuc a) (negsuc b) = a == b
eqb_ℤ (pos a) (negsuc b) = false
eqb_ℤ (negsuc a) (pos b) = false

pub eqb_ℤ_iff : (a b : ℤ) → (eqb_ℤ a b ≡ true) ↔ (a ≡ b)
unfolding eqb_ℤ
eqb_ℤ_iff a b = ground arith

pub ltb-false : (a b : ℕ) → ltb a b ≡ false → b ≤ a
ltb-false a b h = ground arith

pub le→ltb_false : (a b : ℕ) → b ≤ a → ltb a b ≡ false
le→ltb_false a b h = ground arith

pub leb-false : (a b : ℕ) → leb a b ≡ false → b < a
leb-false a b h = ground arith

-- The parts of a sum and of an opposite, for `omega`.
pub add_parts :
    (a b : ℤ)
    → pos_part (a +ℤ b) + (neg_part a + neg_part b) ≡ neg_part (a +ℤ b) + (pos_part a + pos_part b)
unfolding ◌+ℤ◌
add_parts a b = ground arith

pub opp_parts : (a : ℤ) → pos_part (opp a) + pos_part a ≡ neg_part (opp a) + neg_part a
opp_parts a = ground arith

pub ltb_ℤ_asym : (a b : ℤ) → ltb_ℤ a b ≡ true → ltb_ℤ b a ≡ false
ltb_ℤ_asym a b h = le→ltb_false _ _ (omega (arith, ltb→lt _ _ h))

pub ltb_ℤ_trans : (a b c : ℤ) → ltb_ℤ b a ≡ false → ltb_ℤ c b ≡ false → ltb_ℤ c a ≡ false
ltb_ℤ_trans a b c h k = le→ltb_false _ _ (omega (arith, ltb-false _ _ h, ltb-false _ _ k))

-- By the first number, then by the second.
abbrev pub lex_ℤ : ℤ → ℤ → ℤ → ℤ → Bool
lex_ℤ a x b y = if eqb_ℤ a b then ltb_ℤ x y else ltb_ℤ a b

eqb_parts : (a b : ℤ) → eqb_ℤ a b ≡ true → pos_part a + neg_part b ≡ pos_part b + neg_part a
eqb_parts a b h = rw ((eqb_ℤ_iff a b).0 h) refl

ne_parts : (a b : ℤ) → eqb_ℤ a b ≡ false → pos_part a + neg_part b ≢ pos_part b + neg_part a
unfolding eqb_ℤ
ne_parts a b h = ground arith

lex_ℤ-false :
    (a x b y : ℤ)
    → lex_ℤ a x b y ≡ false
    → (pos_part b + neg_part a < pos_part a + neg_part b)
      ⊎ ((pos_part a + neg_part b ≡ pos_part b + neg_part a)
          × (pos_part y + neg_part x ≤ pos_part x + neg_part y))
lex_ℤ-false a x b y h = elim (Bool-cases (eqb_ℤ a b)) [
  | inl e ↦ inr (eqb_parts a b e, ltb-false _ _ (rw e at h))
  | inr e ↦ inl (omega (arith, ne_parts a b e, ltb-false _ _ (rw e at h)))
]

false-lex_ℤ :
    (a x b y : ℤ)
    → (pos_part b + neg_part a < pos_part a + neg_part b)
      ⊎ ((pos_part a + neg_part b ≡ pos_part b + neg_part a)
          × (pos_part y + neg_part x ≤ pos_part x + neg_part y))
    → lex_ℤ a x b y ≡ false
false-lex_ℤ a x b y h = elim (Bool-cases (eqb_ℤ a b)) [
  | inl e ↦ rw e (le→ltb_false _ _ (omega (arith, eqb_parts a b e)))
  | inr e ↦ rw e (le→ltb_false _ _ (omega arith))
]

pub lex_ℤ_trans :
    (a x b y c z : ℤ) → lex_ℤ b y a x ≡ false → lex_ℤ c z b y ≡ false → lex_ℤ c z a x ≡ false
lex_ℤ_trans a x b y c z h k =
    false-lex_ℤ c z a x (compose (lex_ℤ-false b y a x h) (lex_ℤ-false c z b y k))
  where
    compose :
        (pos_part a + neg_part b < pos_part b + neg_part a)
          ⊎ ((pos_part b + neg_part a ≡ pos_part a + neg_part b)
              × (pos_part x + neg_part y ≤ pos_part y + neg_part x))
        → (pos_part b + neg_part c < pos_part c + neg_part b)
          ⊎ ((pos_part c + neg_part b ≡ pos_part b + neg_part c)
              × (pos_part y + neg_part z ≤ pos_part z + neg_part y))
        → (pos_part a + neg_part c < pos_part c + neg_part a)
          ⊎ ((pos_part c + neg_part a ≡ pos_part a + neg_part c)
              × (pos_part x + neg_part z ≤ pos_part z + neg_part x))
    compose (inl p) (inl q) = inl (omega arith)
    compose (inl p) (inr q) = inl (omega arith)
    compose (inr p) (inl q) = inl (omega arith)
    compose (inr p) (inr q) = inr (omega arith)

pub lex_ℤ_asym : (a x b y : ℤ) → lex_ℤ a x b y ≡ true → lex_ℤ b y a x ≡ false
lex_ℤ_asym a x b y h = elim (Bool-cases (eqb_ℤ a b)) [
  | inl e ↦ false-lex_ℤ b y a x (inr (omega (arith, eqb_parts a b e, ltb→lt _ _ (rw e at h))))
  | inr e ↦ false-lex_ℤ b y a x (inl (ltb→lt _ _ (rw e at h)))
]

-- What does not come before another one in that order comes behind it.
pub lex_ℤ-ordered :
    (a x b y : ℤ) → lex_ℤ b y a x ≡ false → (ltb_ℤ a b ≡ true) ⊎ ((a ≡ b) × (ltb_ℤ y x ≡ false))
lex_ℤ-ordered a x b y h = elim (Bool-cases (eqb_ℤ b a)) [
  | inl e ↦ inr (sym ((eqb_ℤ_iff b a).0 e), rw e at h)
  | inr e ↦ inl (lt→ltb _ _ (omega (arith, ne_parts b a e, ltb-false _ _ (rw e at h))))
]
