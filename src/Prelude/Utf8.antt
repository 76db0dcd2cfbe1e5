-- ===== src/Prelude/Utf8.antt =====
-- Go's `unicode/utf8`: the width of the character at the head, `ValidString` and
-- `RuneCountInString`; and texts with characters beyond ASCII, encoded.
use le_cli.Prelude.Lists.{length, All}
use le_cli.Prelude.Tests.{◌==◌, within, ltb, if◌then◌else◌}
use le_cli.Prelude.Text.{Bytes}
use Prim.Native.Nat.{ℕ, zero, suc, ◌-◌, ◌<◌, ◌+◌, ◌/◌, ◌%◌}
use Prim.Native.Char.{code}
use Prim.Native.String.{String}
use mathlib.Core.Path.{◌≡◌, refl, ap}
use mathlib.Core.Bool.{Bool, true, false, ◌&&◌, ◌||◌}
use mathlib.Core.List.{[], ◌∷◌, ◌++◌}
use native.Mathlib.Omega.{arith}

cont : ℕ → Bool
cont = within 0x80 0xBF

two : ℕ → ℕ → Bool
unfolding cont
two c d = within 0xC2 0xDF c && cont d

three : ℕ → ℕ → ℕ → Bool
unfolding cont
three c d e =
    (c == 0xE0 && within 0xA0 0xBF d
      || within 0xE1 0xEC c && cont d
      || c == 0xED && within 0x80 0x9F d
      || within 0xEE 0xEF c && cont d)
    && cont e

four : ℕ → ℕ → ℕ → ℕ → Bool
unfolding cont
four c d e f =
    (c == 0xF0 && within 0x90 0xBF d
      || within 0xF1 0xF3 c && cont d
      || c == 0xF4 && within 0x80 0x8F d)
    && (cont e && cont f)

-- The width of the valid character at the head, or 0.
unfoldable pub rune_width : ℕ → Bytes → ℕ
unfolding two three four
rune_width c [] = if ltb c 0x80 then 1 else 0
rune_width c (d ∷ []) = if ltb c 0x80 then 1 else if two c d then 2 else 0
rune_width c (d ∷ (e ∷ [])) =
    if ltb c 0x80 then 1 else if two c d then 2 else if three c d e then 3 else 0
rune_width c (d ∷ (e ∷ (f ∷ s))) =
    if ltb c 0x80
    then 1
    else if two c d
    then 2
    else if three c d e
    then 3
    else if four c d e f
    then 4
    else 0

unfoldable pub valid_from : ℕ → Bytes → Bool
valid_from k [] = true
valid_from (suc k) (c ∷ s) = valid_from k s
valid_from zero (c ∷ s) =
    let n = rune_width c s in let rest = valid_from (n - 1) s in if n == 0 then false else rest

unfoldable pub rune_count_from : ℕ → Bytes → ℕ
rune_count_from k [] = 0
rune_count_from (suc k) (c ∷ s) = rune_count_from k s
rune_count_from zero (c ∷ s) = suc (rune_count_from (rune_width c s - 1) s)

unfoldable pub valid_string : Bytes → Bool
unfolding valid_from rune_width
valid_string s = valid_from 0 s

unfoldable pub rune_count : Bytes → ℕ
unfolding rune_count_from rune_width
rune_count s = rune_count_from 0 s

abbrev pub IsAscii : Bytes → Type 0
IsAscii = All (λ c. c < 0x80)

rune_width_ascii : (c : ℕ) (s : Bytes) → c < 0x80 → rune_width c s ≡ 1
unfolding rune_width
rune_width_ascii c [] h = ground arith
rune_width_ascii c (d ∷ []) h = ground arith
rune_width_ascii c (d ∷ (e ∷ [])) h = ground arith
rune_width_ascii c (d ∷ (e ∷ (f ∷ s))) h = ground arith

rune_count_from-ascii : (s : Bytes) → IsAscii s → rune_count_from 0 s ≡ length s
unfolding rune_count_from
rune_count_from-ascii [] h = refl
rune_count_from-ascii (c ∷ s) (hc, hs) =
    rw (rune_width_ascii c s hc) (ap suc (rune_count_from-ascii s hs))

-- In an ASCII text each byte is one character.
pub rune_count-ascii : (s : Bytes) → IsAscii s → rune_count s ≡ length s
unfolding rune_count
rune_count-ascii s h = rune_count_from-ascii s h

encode : ℕ → Bytes
encode c =
    if ltb c 0x80
    then c ∷ []
    else if ltb c 0x800
    then (0xC0 + c / 64) ∷ (0x80 + c % 64) ∷ []
    else if ltb c 0x10000
    then (0xE0 + c / 4096) ∷ (0x80 + c / 64 % 64) ∷ (0x80 + c % 64) ∷ []
    else (0xF0 + c / 262144) ∷ (0x80 + c / 4096 % 64) ∷ (0x80 + c / 64 % 64) ∷ (0x80 + c % 64) ∷ []

-- The bytes of a literal.
unfoldable pub lit : String → Bytes
unfolding encode
lit String.[] = []
lit (String.◌∷◌ c s) = encode (code c) ++ lit s
