-- ===== src/Prelude/Runes.antt =====
-- Go's `range` over a string that is valid UTF-8: its characters, and the classes of `unicode` that
-- may not stand in a text of the outside.
use le_cli.Prelude.Lists.{length}
use le_cli.Prelude.Tests.{◌==◌, within, ltb, if◌then◌else◌}
use le_cli.Prelude.Text.{Bytes}
use le_cli.Prelude.Utf8.{rune_width, valid_string}
use Prim.Native.Nat.{ℕ, zero, suc, ◌-◌, ◌+◌, ◌*◌, ◌%◌}
use mathlib.Core.Bool.{Bool, true, false, not, ◌&&◌, ◌||◌}
use mathlib.Core.List.{List, [], ◌∷◌}

-- The character of a given width at the head.
rune_of : ℕ → ℕ → Bytes → ℕ
rune_of w c (d ∷ (e ∷ (f ∷ s))) =
    if w == 4
    then c % 8 * 262144 + d % 64 * 4096 + e % 64 * 64 + f % 64
    else if w == 3
    then c % 16 * 4096 + d % 64 * 64 + e % 64
    else if w == 2
    then c % 32 * 64 + d % 64
    else c
rune_of w c (d ∷ (e ∷ [])) =
    if w == 3
    then c % 16 * 4096 + d % 64 * 64 + e % 64
    else if w == 2
    then c % 32 * 64 + d % 64
    else c
rune_of w c (d ∷ []) = if w == 2 then c % 32 * 64 + d % 64 else c
rune_of w c [] = c

-- The first number counts the bytes of a character that has been read already.
unfoldable pub runes_from : ℕ → Bytes → List ℕ
unfolding rune_width rune_of
runes_from k [] = []
runes_from (suc k) (c ∷ s) = runes_from k s
runes_from zero (c ∷ s) = let w = rune_width c s in rune_of w c s ∷ runes_from (w - 1) s

-- `unicode.IsControl`
unfoldable pub is_control : ℕ → Bool
is_control r = ltb r 0x20 || within 0x7F 0x9F r

-- `unicode.Is(unicode.Cf, r)`
unfoldable pub is_format : ℕ → Bool
is_format r =
    r == 0xAD
    || within 0x600 0x605 r
    || r == 0x61C
    || r == 0x6DD
    || r == 0x70F
    || within 0x890 0x891 r
    || r == 0x8E2
    || r == 0x180E
    || within 0x200B 0x200F r
    || within 0x202A 0x202E r
    || within 0x2060 0x2064 r
    || within 0x2066 0x206F r
    || r == 0xFEFF
    || within 0xFFF9 0xFFFB r
    || r == 0x110BD
    || r == 0x110CD
    || within 0x13430 0x1343F r
    || within 0x1BCA0 0x1BCA3 r
    || within 0x1D173 0x1D17A r
    || r == 0xE0001
    || within 0xE0020 0xE007F r

printable : List ℕ → Bool
unfolding is_control is_format
printable [] = true
printable (r ∷ rs) = not (is_control r || is_format r) && printable rs

-- Valid UTF-8 of at most so many bytes, with no control or format character: three functions of the
-- program test this.
unfoldable pub plain : Bytes → ℕ → Bool
unfolding valid_string runes_from printable
plain s most =
    if ltb most (length s) || not (valid_string s) then false else printable (runes_from 0 s)
