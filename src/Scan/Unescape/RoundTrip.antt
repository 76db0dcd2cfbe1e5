-- ===== src/Scan/Unescape/RoundTrip.antt =====
-- scan/unescape.go: the escaping that ps does, after the file's comment, and lemmas on decoding
-- it.
use le_cli.Prelude.{
  ◌&&◌, ℕ, ◌+◌, ◌-◌, ◌≤◌, ◌<◌, Bytes, Bool, true, false, not, str_eq, str_eq_iff, contains_byte,
  length, ltb, All, [], ◌∷◌, ◌++◌, ◌==◌, if◌then◌else◌, ◌≡◌, ◌≢◌, ◌⊎◌, inl, inr, refl, ap, arith,
  Bool-cases, ◌∙◌, contains, codes, ◌||◌,
}
use le_cli.Prelude.Utf8.{valid_string, rune_count}
use le_cli.Scan.Unescape.{commit_if_decoded, decode_ps, unescape_ps, unescape_lsof}

-- The result is the text itself, or valid UTF-8 that is not all ASCII.
abbrev pub IsSafe : Bytes → Bytes → Type 0
IsSafe orig result =
    (result ≡ orig) ⊎ ((valid_string result ≡ true) × (rune_count result ≢ length result))

commit_if_decoded-IsSafe : (s d : Bytes) → IsSafe s (commit_if_decoded s d)
unfolding commit_if_decoded
commit_if_decoded-IsSafe s d = elim (Bool-cases (str_eq d s)) [
  | inl e ↦ inl (ground arith)
  | inr e ↦ elim (Bool-cases (valid_string d)) [
    | inl v ↦ elim (Bool-cases (rune_count d == length d)) [
      | inl n ↦ inl (ground arith)
      | inr n ↦ inr (ground arith, ground arith)
    ]
    | inr v ↦ inl (ground arith)
  ]
]

pick : (b : Bool) (s d : Bytes) → IsSafe s d → IsSafe s (if b then s else d)
pick true s d h = inl refl
pick false s d h = h

-- Both decoders return the text untouched, or valid UTF-8 with a character of several bytes.
unescape-IsSafe : (s : Bytes) → IsSafe s (unescape_ps s) × IsSafe s (unescape_lsof s)
unfolding unescape_ps unescape_lsof
unescape-IsSafe s = (
  pick (not (contains_byte b'M' s) && not (contains_byte b'^' s)) s _
      (commit_if_decoded-IsSafe s _),
  pick (not (contains s (codes "\\x"))) s _ (commit_if_decoded-IsSafe s _),
)

-- How ps writes a byte, after the table above `unescapePS`: a control code as `^` and the character
-- that differs from it in the bit 0x40, so that DEL is `^?`; a byte from 0x80 on with an `M` before
-- what its lower seven bits are written as, and a dash between if they are no control code.
abbrev is_control : ℕ → Bool
is_control b = ltb b 0x20 || b == 0x7F

abbrev caret : ℕ → Bytes
caret b = b'^' ∷ (if b == 0x7F then b'?' else b + 0x40) ∷ []

abbrev vis_byte : ℕ → Bytes
vis_byte b =
    if ltb b 0x80
    then (if is_control b then caret b else b ∷ [])
    else if is_control (b - 0x80)
    then b'M' ∷ caret (b - 0x80)
    else b'M' ∷ b'-' ∷ (b - 0x80) ∷ []

abbrev pub vis : Bytes → Bytes
vis [] = []
vis (b ∷ s) = vis_byte b ++ vis s

-- An ASCII byte other than `M`, `^` and DEL, or another byte but 0xDE and 0xFF.
abbrev pub Writable : ℕ → Type 0
Writable b = (b < 0xFF) × (b ≢ 0x7F) × (b ≢ 0xDE) × (b ≢ b'M') × (b ≢ b'^')

decode_vis_byte :
    (b : ℕ) (rest : Bytes) → Writable b → decode_ps 0 (vis_byte b ++ rest) ≡ b ∷ decode_ps 0 rest
unfolding decode_ps
decode_vis_byte b [] h = ground arith
decode_vis_byte b (d ∷ []) h = ground arith
decode_vis_byte b (d ∷ (e ∷ [])) h = ground arith
decode_vis_byte b (d ∷ (e ∷ (f ∷ s))) h = ground arith

decode_ps-vis : (s : Bytes) → All Writable s → decode_ps 0 (vis s) ≡ s
decode_ps-vis [] h = unfold decode_ps in refl
decode_ps-vis (b ∷ s) (hb, hs) = decode_vis_byte b (vis s) hb ∙ ap (◌∷◌ b) (decode_ps-vis s hs)

vis_plain :
    (s : Bytes)
    → contains_byte b'M' (vis s) ≡ false
    → contains_byte b'^' (vis s) ≡ false
    → vis s ≡ s
unfolding contains_byte
vis_plain [] h k = refl
vis_plain (b ∷ s) h k = ground (arith, vis_plain s)

commit_good :
    (orig d : Bytes)
    → valid_string d ≡ true
    → rune_count d ≢ length d
    → commit_if_decoded orig d ≡ d
unfolding commit_if_decoded
commit_good orig d v n = ground (arith, str_eq_iff d orig)

-- A valid UTF-8 text with a character of several bytes is read back from what ps prints for it, its
-- control codes included, if it holds none of the bytes `M`, `^`, 0x7F, 0xDE and 0xFF.
pub unescape_ps-vis :
    (s : Bytes)
    → All Writable s
    → valid_string s ≡ true
    → rune_count s ≢ length s
    → unescape_ps (vis s) ≡ s
unfolding unescape_ps
unescape_ps-vis s h v n = elim (Bool-cases (contains_byte b'M' (vis s))) [
  | inl m ↦ rw (m, decode_ps-vis s h) (commit_good (vis s) s v n)
  | inr m ↦ elim (Bool-cases (contains_byte b'^' (vis s))) [
    | inl c ↦ rw (m, c, decode_ps-vis s h) (commit_good (vis s) s v n)
    | inr c ↦ rw (m, c) (vis_plain s m c)
  ]
]

valid_from_8d : (rest : Bytes) → valid_string (0x8D ∷ rest) ≡ false
unfolding valid_string
valid_from_8d [] = refl
valid_from_8d (d ∷ []) = ground arith
valid_from_8d (d ∷ (e ∷ [])) = ground arith
valid_from_8d (d ∷ (e ∷ (f ∷ s))) = ground arith

commit_bad : (orig d : Bytes) → valid_string d ≡ false → commit_if_decoded orig d ≡ orig
unfolding commit_if_decoded
commit_bad orig d v = ground arith

decode_de :
    (b : ℕ) (rest : Bytes)
    → 0x80 ≤ b
    → (t : Bytes) × (decode_ps 0 (vis (0xDE ∷ (b ∷ rest))) ≡ 0x8D ∷ t)
unfolding decode_ps
decode_de b rest h = elim (Bool-cases (is_control (b - 0x80))) [
  | inl c ↦ (
    decode_ps 0 (b'^' ∷ ((if b - 0x80 == 0x7F then b'?' else b - 0x80 + 0x40) ∷ vis rest)),
    ground arith,
  )
  | inr c ↦ (decode_ps 0 (b'-' ∷ ((b - 0x80) ∷ vis rest)), ground arith)
]

-- What ps prints for a name that begins with the byte 0xDE and another byte from 0x80 on, as names
-- in
-- Thaana do, is returned as it is, still escaped.
pub unescape_ps_thaana :
    (b : ℕ) (rest : Bytes)
    → 0x80 ≤ b
    → unescape_ps (vis (0xDE ∷ (b ∷ rest))) ≡ vis (0xDE ∷ (b ∷ rest))
unfolding unescape_ps
unescape_ps_thaana b rest h =
    let (t, e) = decode_de b rest h in
    let invalid : valid_string (decode_ps 0 (vis (0xDE ∷ (b ∷ rest)))) ≡ false =
      rw e (valid_from_8d t) in
    pick_either
      (not (contains_byte b'M' (vis (0xDE ∷ (b ∷ rest))))
        && not (contains_byte b'^' (vis (0xDE ∷ (b ∷ rest)))))
      (commit_bad (vis (0xDE ∷ (b ∷ rest))) _ invalid)
  where
    pick_either : (c : Bool) {x y : Bytes} → y ≡ x → (if c then x else y) ≡ x
    pick_either true p = refl
    pick_either false p = p
