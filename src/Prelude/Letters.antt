-- ===== src/Prelude/Letters.antt =====
-- More of Go's `strings` and `path/filepath`, on bytes.
pub mod Laws
use le_cli.Prelude.Lists.{length, take, drop}
use le_cli.Prelude.Tests.{ltb, ◌==◌, within, if◌then◌else◌}
use le_cli.Prelude.Maps.{Map, lookup, bytes_eq}
use le_cli.Prelude.Utf8.{rune_width}
use le_cli.Prelude.Text.{Bytes, codes, str_eq, is_empty, contains_byte}
use Prim.Native.Nat.{ℕ, zero, suc, ◌+◌, ◌-◌}
use mathlib.Core.Bool.{Bool, false}
use mathlib.Core.List.{[], ◌∷◌, ◌++◌, reverse}
use mathlib.Core.Option.{Option, none, some}
use mathlib.Core.Path.{◌≡◌, refl}

lower1 : ℕ → ℕ
lower1 c = if within b'A' b'Z' c then c + 32 else c

-- The letters whose lower case has another number of bytes, with it.
abbrev resized : Map Bytes Bytes
resized =
    (0xC4 ∷ 0xB0 ∷ [], b'i' ∷ [])
    ∷ (0xC8 ∷ 0xBA ∷ [], 0xE2 ∷ 0xB1 ∷ 0xA5 ∷ [])
    ∷ (0xC8 ∷ 0xBE ∷ [], 0xE2 ∷ 0xB1 ∷ 0xA6 ∷ [])
    ∷ (0xE1 ∷ 0xBA ∷ 0x9E ∷ [], 0xC3 ∷ 0x9F ∷ [])
    ∷ (0xE2 ∷ 0x84 ∷ 0xA6 ∷ [], 0xCF ∷ 0x89 ∷ [])
    ∷ (0xE2 ∷ 0x84 ∷ 0xAA ∷ [], b'k' ∷ [])
    ∷ (0xE2 ∷ 0x84 ∷ 0xAB ∷ [], 0xC3 ∷ 0xA5 ∷ [])
    ∷ (0xE2 ∷ 0xB1 ∷ 0xA2 ∷ [], 0xC9 ∷ 0xAB ∷ [])
    ∷ (0xE2 ∷ 0xB1 ∷ 0xA4 ∷ [], 0xC9 ∷ 0xBD ∷ [])
    ∷ (0xE2 ∷ 0xB1 ∷ 0xAD ∷ [], 0xC9 ∷ 0x91 ∷ [])
    ∷ (0xE2 ∷ 0xB1 ∷ 0xAE ∷ [], 0xC9 ∷ 0xB1 ∷ [])
    ∷ (0xE2 ∷ 0xB1 ∷ 0xAF ∷ [], 0xC9 ∷ 0x90 ∷ [])
    ∷ (0xE2 ∷ 0xB1 ∷ 0xB0 ∷ [], 0xC9 ∷ 0x92 ∷ [])
    ∷ (0xE2 ∷ 0xB1 ∷ 0xBE ∷ [], 0xC8 ∷ 0xBF ∷ [])
    ∷ (0xE2 ∷ 0xB1 ∷ 0xBF ∷ [], 0xC9 ∷ 0x80 ∷ [])
    ∷ (0xEA ∷ 0x9E ∷ 0x8D ∷ [], 0xC9 ∷ 0xA5 ∷ [])
    ∷ (0xEA ∷ 0x9E ∷ 0xAA ∷ [], 0xC9 ∷ 0xA6 ∷ [])
    ∷ (0xEA ∷ 0x9E ∷ 0xAB ∷ [], 0xC9 ∷ 0x9C ∷ [])
    ∷ (0xEA ∷ 0x9E ∷ 0xAC ∷ [], 0xC9 ∷ 0xA1 ∷ [])
    ∷ (0xEA ∷ 0x9E ∷ 0xAD ∷ [], 0xC9 ∷ 0xAC ∷ [])
    ∷ (0xEA ∷ 0x9E ∷ 0xAE ∷ [], 0xC9 ∷ 0xAA ∷ [])
    ∷ (0xEA ∷ 0x9E ∷ 0xB0 ∷ [], 0xCA ∷ 0x9E ∷ [])
    ∷ (0xEA ∷ 0x9E ∷ 0xB1 ∷ [], 0xCA ∷ 0x87 ∷ [])
    ∷ (0xEA ∷ 0x9E ∷ 0xB2 ∷ [], 0xCA ∷ 0x9D ∷ [])
    ∷ (0xEA ∷ 0x9F ∷ 0x85 ∷ [], 0xCA ∷ 0x82 ∷ [])
    ∷ []

-- The lower case of the character at the head, and the number of bytes read for it. A byte that
-- begins no character becomes U+FFFD.
lower_head : ℕ → Bytes → Bytes × ℕ
unfolding rune_width lookup str_eq
lower_head c s =
    let n = rune_width c s in
    let rune = take n (c ∷ s) in
    if ltb c 0x80
    then (lower1 c ∷ [], 1)
    else if n == 0
    then (0xEF ∷ 0xBF ∷ 0xBD ∷ [], 1)
    else (elim (lookup rune resized) [ none ↦ rune | some low ↦ low ], n)

to_lower_from : ℕ → Bytes → Bytes
to_lower_from k [] = []
to_lower_from (suc k) (c ∷ s) = to_lower_from k s
to_lower_from zero (c ∷ s) = let h = lower_head c s in h.0 ++ to_lower_from (h.1 - 1) s

-- `strings.ToLower`. The letters A to Z are translated, and those whose lower case has another
-- number of bytes; the case of other letters is kept, which no comparison with an ASCII text and
-- no position in the text can see.
unfoldable pub to_lower : Bytes → Bytes
unfolding to_lower_from lower_head lower1
to_lower s = to_lower_from 0 s

unfoldable pub has_suffix : Bytes → Bytes → Bool
unfolding str_eq
has_suffix s suffix =
    if ltb (length s) (length suffix)
    then false
    else str_eq (drop (length s - length suffix) s) suffix

unfoldable pub trim_suffix : Bytes → Bytes → Bytes
unfolding has_suffix
trim_suffix s suffix = if has_suffix s suffix then take (length s - length suffix) s else s

-- `strings.TrimLeft` for a set of ASCII bytes
trim_left_set : Bytes → Bytes → Bytes
trim_left_set set [] = []
trim_left_set set (c ∷ s) = let r = trim_left_set set s in if contains_byte c set then r else c ∷ s

-- `strings.Trim` for a set of ASCII bytes
unfoldable pub trim_set : Bytes → Bytes → Bytes
unfolding trim_left_set contains_byte
trim_set set s = reverse (trim_left_set set (reverse (trim_left_set set s)))

-- `strings.ReplaceAll` of one byte by a text
unfoldable pub replace_byte : ℕ → Bytes → Bytes → Bytes
replace_byte b with [] = []
replace_byte b with (c ∷ s) =
    if c == b then with ++ replace_byte b with s else c ∷ replace_byte b with s

unfoldable pub index_byte : ℕ → Bytes → Option ℕ
index_byte b [] = none
index_byte b (c ∷ s) =
    let rest = index_byte b s in
    if c == b then some 0 else elim rest [ none ↦ none | some i ↦ some (suc i) ]

-- What follows the last occurrence of the byte, if there is one.
unfoldable pub after_last : ℕ → Bytes → Option Bytes
after_last b [] = none
after_last b (c ∷ s) =
    let rest = after_last b s in
    elim rest [ some t ↦ some t | none ↦ (if c == b then some s else none) ]

-- `filepath.Base` on Unix: trailing slashes are dropped, and an empty path is ".".
unfoldable pub base : Bytes → Bytes
unfolding trim_left_set contains_byte after_last
base [] = codes "."
base (c ∷ s) =
    let t = reverse (trim_left_set (codes "/") (reverse (c ∷ s))) in
    if is_empty t then codes "/" else elim (after_last b'/' t) [ none ↦ t | some u ↦ u ]

lower_name : to_lower (codes "Docker-PROXY") ≡ codes "docker-proxy"
unfolding to_lower
lower_name = refl

base_of : base (codes "/usr/bin/node/") ≡ codes "node"
unfolding base
base_of = refl

trim_quotes : trim_set (codes "\"'") (codes "'a b\"") ≡ codes "a b"
unfolding trim_set
trim_quotes = refl
