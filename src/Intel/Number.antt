-- ===== src/Intel/Number.antt =====
-- intel/intel.go: `itoa`, which writes the digits of an `int` into a buffer of 20 bytes.
pub mod Laws
use le_cli.Prelude.{
  ℕ, zero, suc, ◌+◌, ◌-◌, ◌/◌, ◌%◌, ◌^◌, Bytes, codes, [], ◌∷◌, Option, none, some, if◌then◌else◌,
  ◌==◌, ◌≡◌, refl,
}
use le_cli.Prelude.Int.{ℤ, pos, negsuc}

-- The digits are written from the end. The first number counts the free bytes in front, `i`;
-- `none` is the write in front of the buffer, which panics.
unfoldable pub fill : ℕ → Bytes → ℕ → Option (Bytes × ℕ)
fill zero written n = if n == 0 then some (written, zero) else none
fill (suc i) written n =
    let more = fill i ((b'0' + n % 10) ∷ written) (n / 10) in
    if n == 0 then some (written, suc i) else more

unfoldable pub put_sign : Option (Bytes × ℕ) → Option Bytes
put_sign none = none
put_sign (some (written, zero)) = none
put_sign (some (written, suc i)) = some (b'-' ∷ written)

unfoldable pub unsigned : Option (Bytes × ℕ) → Option Bytes
unsigned none = none
unsigned (some (written, i)) = some written

-- The opposite of the least `int` is that number again, so the loop does not run for it.
unfoldable pub itoa : ℤ → Option Bytes
unfolding fill put_sign unsigned
itoa (pos n) = if n == 0 then some (codes "0") else unsigned (fill 20 [] n)
itoa (negsuc n) = put_sign (if suc n == 2 ^ 63 then fill 20 [] 0 else fill 20 [] (suc n))
