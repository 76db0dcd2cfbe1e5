-- ===== src/Scan/Unescape.antt =====
-- scan/unescape.go: names that ps and lsof escape under the C locale. On bytes, `x & 0x1f` is
-- `x % 32`, `x | 0x80` is `x % 128 + 128`, and `hi<<4 | lo` is `hi * 16 + lo`.
pub mod RoundTrip
use le_cli.Prelude.{
  ℕ, zero, suc, ◌+◌, ◌-◌, ◌*◌, ◌%◌, Bytes, codes, Bool, true, false, not, ◌&&◌, ◌||◌, str_eq,
  contains_byte, contains, length, within, [], ◌∷◌, Option, none, some, ◌==◌, if◌then◌else◌, ◌≡◌,
  refl,
}
use le_cli.Prelude.Utf8.{valid_string, rune_count}

-- `commitIfDecoded`
unfoldable pub commit_if_decoded : Bytes → Bytes → Bytes
unfolding str_eq
commit_if_decoded orig decoded =
    if str_eq decoded orig || not (valid_string decoded)
    then orig
    else if rune_count decoded == length decoded
    then orig
    else decoded

-- The byte that the head of the text stands for, and the number of bytes read for it.
ps_unit : ℕ → Bytes → ℕ × ℕ
ps_unit c [] = (c, 1)
ps_unit c (d ∷ []) = if c == b'^' && not (d == b' ') then (d % 32, 2) else (c, 1)
ps_unit c (d ∷ (e ∷ [])) =
    if c == b'M' && d == b'^'
    then (e % 32 + 128, 3)
    else if c == b'M' && d == b'-'
    then (e % 128 + 128, 3)
    else if c == b'^' && not (d == b' ')
    then (d % 32, 2)
    else (c, 1)
ps_unit c (d ∷ (e ∷ (f ∷ s))) =
    if c == b'M' && d == b'-' && e == b'^'
    then (f % 32 + 128, 4)
    else if c == b'M' && d == b'^'
    then (e % 32 + 128, 3)
    else if c == b'M' && d == b'-'
    then (e % 128 + 128, 3)
    else if c == b'^' && not (d == b' ')
    then (d % 32, 2)
    else (c, 1)

-- The loop of `unescapePS`; the number counts the bytes that the last round has read ahead.
decode_ps : ℕ → Bytes → Bytes
unfolding ps_unit
decode_ps k [] = []
decode_ps (suc k) (c ∷ s) = decode_ps k s
decode_ps zero (c ∷ s) = let u = ps_unit c s in u.0 ∷ decode_ps (u.1 - 1) s

unfoldable pub unescape_ps : Bytes → Bytes
unfolding decode_ps contains_byte commit_if_decoded
unescape_ps s =
    if not (contains_byte b'M' s) && not (contains_byte b'^' s)
    then s
    else commit_if_decoded s (decode_ps 0 s)

hex_val : ℕ → Option ℕ
hex_val b =
    if within b'0' b'9' b
    then some (b - b'0')
    else if within b'a' b'f' b
    then some (b - b'a' + 10)
    else if within b'A' b'F' b
    then some (b - b'A' + 10)
    else none

hex_byte : ℕ → Option ℕ → Option ℕ → ℕ × ℕ
hex_byte c (some hi) (some lo) = (hi * 16 + lo, 4)
hex_byte c (some hi) none = (c, 1)
hex_byte c none lo = (c, 1)

lsof_unit : ℕ → Bytes → ℕ × ℕ
unfolding hex_val hex_byte
lsof_unit c (d ∷ (e ∷ (f ∷ s))) =
    if c == b'\\' && d == b'x' then hex_byte c (hex_val e) (hex_val f) else (c, 1)
lsof_unit c s = (c, 1)

decode_lsof : ℕ → Bytes → Bytes
unfolding lsof_unit
decode_lsof k [] = []
decode_lsof (suc k) (c ∷ s) = decode_lsof k s
decode_lsof zero (c ∷ s) = let u = lsof_unit c s in u.0 ∷ decode_lsof (u.1 - 1) s

unfoldable pub unescape_lsof : Bytes → Bytes
unfolding decode_lsof contains commit_if_decoded
unescape_lsof s =
    if not (contains s (codes "\\x")) then s else commit_if_decoded s (decode_lsof 0 s)

-- The examples of the file's comment.
wechat : Bytes
wechat = 0xE4 ∷ 0xBC ∷ 0x81 ∷ 0xE4 ∷ 0xB8 ∷ 0x9A ∷ []

decode_tests :
    (unescape_ps (codes "M-dM-<M^AM-dM-8M^Z") ≡ wechat)
    × (unescape_lsof (codes "\\xe4\\xbc\\x81\\xe4\\xb8\\x9a") ≡ wechat)
    × (unescape_ps (codes "node M-d ^C") ≡ codes "node M-d ^C")
unfolding unescape_ps unescape_lsof wechat valid_string rune_count
decode_tests = (refl, refl, refl)
