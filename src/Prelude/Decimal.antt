-- ===== src/Prelude/Decimal.antt =====
-- Go's `strconv`: decimal integers, printed by `Itoa` and read by `Atoi`.
use le_cli.Prelude.Int.{ℤ, pos, negsuc}
use le_cli.Prelude.Order.{lt_wf}
use le_cli.Prelude.Tests.{ltb, leb, ◌==◌, within, if◌then◌else◌}
use le_cli.Prelude.Text.{Bytes, codes}
use mathlib.Core.Path.{◌≡◌, refl}
use mathlib.Core.Bool.{Bool, true, false, not}
use mathlib.Core.List.{[], ◌∷◌}
use mathlib.Core.Logic.{dite}
use mathlib.Core.Option.{Option, none, some}
use mathlib.Core.WellFounded.{Acc}
use Prim.Native.Nat.{◌<◌, ◌^◌, ◌%◌, ◌/◌, ◌*◌, ◌-◌, ◌+◌, suc, ℕ}
use native.Mathlib.Decide.{dec_lt}
use native.Mathlib.Omega.{arith}

-- The digits above a last one, in front of the text.
unfoldable pub prepend_digits : Bytes → (v : ℕ) → Acc ◌<◌ v → Bytes
prepend_digits tail v (Acc.intro _ below) =
    let more = λ (big : 9 < v).
      prepend_digits ((b'0' + v % 10) ∷ tail) (v / 10) (below (v / 10) (omega arith)) in
    dite (dec_lt 9 v) more (λ _. (b'0' + v) ∷ tail)

-- The digits of a natural number; 0 is "0".
unfoldable pub digits : ℕ → Bytes
unfolding prepend_digits lt_wf dec_lt
digits n = prepend_digits [] n (lt_wf.apply n)

-- `strconv.Itoa`
unfoldable pub itoa : ℤ → Bytes
unfolding digits
itoa (pos n) = digits n
itoa (negsuc n) = b'-' ∷ digits (suc n)

-- The two ways in which a number is not read.
pub data NumError : Type 0 where
  syntax range : NumError

pub data Scan : Type 0 where
  value : ℕ → Scan
  failed : NumError → Scan

-- The loop of `ParseUint` in base 10 for 64 bits. It stops at the first byte that is no digit, or
-- at the digit that overflows.
scan_digits : ℕ → Bytes → Scan
scan_digits n [] = value n
scan_digits n (c ∷ s) =
    let next = scan_digits (n * 10 + (c - b'0')) s in
    if not (within b'0' b'9' c)
    then failed syntax
    else if leb (2 ^ 64) (n * 10 + (c - b'0'))
    then failed range
    else next

unfoldable pub parse_uint : Bytes → Scan
unfolding scan_digits
parse_uint [] = failed syntax
parse_uint (c ∷ s) = scan_digits 0 (c ∷ s)

-- `ParseInt(s, 10, 64)` behind the sign: the bounds are -2^63 and 2^63 - 1, and a value out of
-- range is returned as the nearest bound, with the error.
signed : Bool → Scan → ℤ × Option NumError
signed neg (failed syntax) = (pos 0, some syntax)
signed false (failed range) = (pos (2 ^ 63 - 1), some range)
signed true (failed range) = (negsuc (2 ^ 63 - 1), some range)
signed false (value n) = if leb (2 ^ 63) n then (pos (2 ^ 63 - 1), some range) else (pos n, none)
signed true (value n) =
    if ltb (2 ^ 63) n
    then (negsuc (2 ^ 63 - 1), some range)
    else (if n == 0 then pos 0 else negsuc (n - 1), none)

-- `strconv.Atoi`: the value and the error
unfoldable pub atoi : Bytes → ℤ × Option NumError
unfolding parse_uint signed
atoi [] = (pos 0, some syntax)
atoi (c ∷ s) =
    if c == b'-'
    then signed true (parse_uint s)
    else if c == b'+'
    then signed false (parse_uint s)
    else signed false (parse_uint (c ∷ s))

atoi_tests :
    (atoi (codes "8080") ≡ (pos 8080, none))
    × (atoi (codes "-12") ≡ (negsuc 11, none))
    × (atoi (codes "12x") ≡ (pos 0, some syntax))
    × (atoi (codes "99999999999999999999x") ≡ (pos (2 ^ 63 - 1), some range))
    × (itoa (negsuc 41) ≡ codes "-42")
unfolding atoi itoa
atoi_tests = (refl, refl, refl, refl, refl)
