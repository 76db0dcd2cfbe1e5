-- ===== src/Intel/Number/Laws.antt =====
-- intel/intel.go: `itoa`, compared with `strconv.Itoa`.
use le_cli.Prelude.{
  ℕ, zero, suc, ◌+◌, ◌-◌, ◌*◌, ◌/◌, ◌%◌, ◌^◌, ◌<◌, ◌≤◌, Bytes, codes, [], ◌∷◌, Option, none, some,
  if◌then◌else◌, ◌==◌, ◌≡◌, refl, ap, ◌∙◌, arith, Bool, true, false, inl, inr, ◌⊎◌, sym,
}
use le_cli.Prelude.Decimal
use le_cli.Prelude.Decimal.{digits, prepend_digits}
use le_cli.Prelude.Int.{ℤ, pos, negsuc, pos_part, neg_part}
use le_cli.Prelude.Order.{lt_wf}
use le_cli.Intel.Number.{fill, put_sign, unsigned, itoa}
use mathlib.Core.Logic.{dite}
use mathlib.Core.WellFounded.{Acc}
use native.Mathlib.Decide.{dec_lt}

power : ℕ → ℕ
power zero = 1
power (suc i) = 10 * power i

dite_no {ℓ κ} :
    {P : Type ℓ} {C : Type κ} (d : Dec P) (f : P → C) (x : C) → (P → ⊥) → dite d f (λ _. x) ≡ x
dite_no (yes p) f x n = absurd (n p)
dite_no (no q) f x n = refl

dite_yes :
    {P : Type 0} (d : Dec P) (written : Bytes) (v : ℕ) (x : Bytes) (f : P → Acc ◌<◌ v)
    → P
    → (b : Acc ◌<◌ v) × (dite d (λ q. prepend_digits written v (f q)) (λ _. x)
        ≡ prepend_digits written v b)
dite_yes (yes q) written v x f p = (f q, refl)
dite_yes (no n) written v x f p = absurd (n p)

prepend_digits_last :
    (written : Bytes) (v : ℕ) (a : Acc ◌<◌ v)
    → v ≤ 9
    → prepend_digits written v a ≡ (b'0' + v) ∷ written
unfolding prepend_digits dec_lt
prepend_digits_last written v (Acc.intro _ below) small =
    dite_no (dec_lt 9 v) _ ((b'0' + v) ∷ written) (λ big. omega (arith, big, small))

prepend_digits_more :
    (written : Bytes) (v : ℕ) (a : Acc ◌<◌ v)
    → 9 < v
    → (b : Acc ◌<◌ (v / 10)) × (prepend_digits written v a
        ≡ prepend_digits ((b'0' + v % 10) ∷ written) (v / 10) b)
unfolding prepend_digits dec_lt
prepend_digits_more written v (Acc.intro _ below) big =
    dite_yes (dec_lt 9 v) ((b'0' + v % 10) ∷ written) (v / 10) ((b'0' + v) ∷ written)
      (λ q. below (v / 10) (omega arith)) big

fill_done : (i : ℕ) (written : Bytes) → fill i written 0 ≡ some (written, i)
unfolding fill
fill_done zero written = refl
fill_done (suc i) written = refl

fill_next :
    (i v : ℕ) (written : Bytes)
    → 0 < v
    → fill (suc i) written v ≡ fill i ((b'0' + v % 10) ∷ written) (v / 10)
unfolding fill
fill_next i v written h = ground arith

-- A number of as many digits leaves a byte free.
fill-prepend_digits :
    (i v : ℕ) (written : Bytes) (a : Acc ◌<◌ v)
    → 0 < v
    → v < power i
    → (j : ℕ) × (fill (suc i) written v ≡ some (prepend_digits written v a, suc j))
unfolding power
fill-prepend_digits zero v written a h lt = absurd (omega (arith, h, lt))
fill-prepend_digits (suc i) v written a h lt = elim (dec_lt 9 v) [
  | no small ↦
      let last : v / 10 ≡ 0 = omega arith in
      let digit : v % 10 ≡ v = omega arith in
      (
        i,
        fill_next (suc i) v written h
            ∙ rw (last, digit) (fill_done (suc i) ((b'0' + v) ∷ written))
            ∙ ap (λ t. some (t, suc i)) (sym (prepend_digits_last written v a (omega arith))),
      )
  | yes big ↦
      let (b, e) = prepend_digits_more written v a big in
      let (j, f) =
        fill-prepend_digits i (v / 10) ((b'0' + v % 10) ∷ written) b (omega arith)
          (omega (arith, lt)) in
      (j, fill_next (suc i) v written h ∙ f ∙ ap (λ t. some (t, suc j)) (sym e))
]

fill-digits : (v : ℕ) → 0 < v → v < 2 ^ 63 → (j : ℕ) × (fill 20 [] v ≡ some (digits v, suc j))
unfolding digits power
fill-digits v h lt = fill-prepend_digits 19 v [] (lt_wf.apply v) h (omega (arith, lt))

itoa_negsuc : (n : ℕ) → suc n < 2 ^ 63 → itoa (negsuc n) ≡ put_sign (fill 20 [] (suc n))
unfolding itoa
itoa_negsuc n h = let other : (suc n == 2 ^ 63) ≡ false = ground arith in rw other refl

itoa_pos : (n : ℕ) → itoa (pos (suc n)) ≡ unsigned (fill 20 [] (suc n))
unfolding itoa
itoa_pos n = let other : (suc n == 0) ≡ false = ground arith in rw other refl

-- For a signed number of 64 bits other than the least one, `itoa` does not run out of its buffer
-- and writes the same text as `strconv.Itoa`.
pub itoa-itoa :
    (n : ℤ)
    → pos_part n < 2 ^ 63
    → neg_part n < 2 ^ 63
    → itoa n ≡ some (le_cli.Prelude.Decimal.itoa n)
unfolding unsigned put_sign le_cli.Prelude.Decimal.itoa
itoa-itoa (pos zero) h k = unfold itoa digits in refl
itoa-itoa (pos (suc n)) h k =
    let (j, e) = fill-digits (suc n) (omega arith) h in itoa_pos n ∙ ap unsigned e
itoa-itoa (negsuc n) h k =
    let (j, e) = fill-digits (suc n) (omega arith) k in itoa_negsuc n k ∙ ap put_sign e
