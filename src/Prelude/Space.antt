-- ===== src/Prelude/Space.antt =====
-- White space in Go's `strings` package: `unicode.IsSpace` read off the UTF-8 bytes, `Fields` and
-- `TrimSpace`. A space of two or three bytes never begins inside another character, so a byte-wise
-- scan finds the same spaces as Go's decoding.
pub mod Laws
use le_cli.Prelude.Lists.{All}
use le_cli.Prelude.Tests.{◌==◌, within, if◌then◌else◌}
use le_cli.Prelude.Text.{Bytes, is_empty, join}
use Prim.Native.Nat.{ℕ, zero, suc, ◌-◌}
use mathlib.Core.Path.{◌≡◌, refl, ap, ◌∙◌}
use mathlib.Core.Logic.{◌≢◌, ◌⊎◌, inl, inr}
use mathlib.Core.Bool.{Bool, true, false, ◌&&◌, ◌||◌}
use mathlib.Core.List.{List, [], ◌∷◌, ◌++◌}
use native.Mathlib.Omega.{arith}

space1 : ℕ → Bool
space1 c = c == 32 || within 9 13 c

-- U+0085 and U+00A0
space2 : ℕ → ℕ → Bool
space2 c d = c == 0xC2 && (d == 0x85 || d == 0xA0)

-- U+1680, U+2000 to U+200A, U+2028, U+2029, U+202F, U+205F and U+3000
space3 : ℕ → ℕ → ℕ → Bool
space3 c d e =
    c == 0xE1 && d == 0x9A && e == 0x80
    || c == 0xE2 && d == 0x80 && (within 0x80 0x8A e || e == 0xA8 || e == 0xA9 || e == 0xAF)
    || c == 0xE2 && d == 0x81 && e == 0x9F
    || c == 0xE3 && d == 0x80 && e == 0x80

-- The number of bytes of the space that the text begins with, or 0.
unfoldable pub space_width : Bytes → ℕ
unfolding space1 space2 space3
space_width [] = 0
space_width (c ∷ []) = if space1 c then 1 else 0
space_width (c ∷ (d ∷ [])) = if space1 c then 1 else if space2 c d then 2 else 0
space_width (c ∷ (d ∷ (e ∷ s))) =
    if space1 c then 1 else if space2 c d then 2 else if space3 c d e then 3 else 0

abbrev close : Bytes × List Bytes → List Bytes
close (w, ws) = if is_empty w then ws else w ∷ ws

-- The word that goes on at this place, and the later words. The number counts the bytes of a space
-- that are still to be passed over.
fields_from : ℕ → Bytes → Bytes × List Bytes
fields_from k [] = ([], [])
fields_from (suc k) (c ∷ s) = fields_from k s
fields_from zero (c ∷ s) =
    let n = space_width (c ∷ s) in
    let r = fields_from (n - 1) s in if n == 0 then (c ∷ r.0, r.1) else ([], close r)

unfoldable pub fields : Bytes → List Bytes
unfolding fields_from space_width
fields s = close (fields_from 0 s)

trim_left_from : ℕ → Bytes → Bytes
trim_left_from k [] = []
trim_left_from (suc k) (c ∷ s) = trim_left_from k s
trim_left_from zero (c ∷ s) =
    let n = space_width (c ∷ s) in let r = trim_left_from (n - 1) s in if n == 0 then c ∷ s else r

all_space_from : ℕ → Bytes → Bool
all_space_from k [] = true
all_space_from (suc k) (c ∷ s) = all_space_from k s
all_space_from zero (c ∷ s) =
    let n = space_width (c ∷ s) in let r = all_space_from (n - 1) s in if n == 0 then false else r

unfoldable pub all_space : Bytes → Bool
unfolding all_space_from space_width
all_space s = all_space_from 0 s

trim_right : Bytes → Bytes
trim_right [] = []
trim_right (c ∷ s) = let r = trim_right s in if all_space (c ∷ s) then [] else c ∷ r

unfoldable pub trim_space : Bytes → Bytes
unfolding trim_left_from trim_right all_space space_width
trim_space s = trim_right (trim_left_from 0 s)

-- No space begins anywhere in the text.
abbrev pub Solid : Bytes → Type 0
Solid [] = Unit
Solid (c ∷ s) = (space_width (c ∷ s) ≡ 0) × Solid s

abbrev pub IsWord : Bytes → Type 0
IsWord w = (w ≢ []) × Solid w

space_width-append :
    (c : ℕ) (p t : Bytes) → space_width (c ∷ (p ++ t)) ≡ 0 → space_width (c ∷ p) ≡ 0
unfolding space_width
space_width-append c [] [] h = h
space_width-append c [] (x ∷ []) h = ground arith
space_width-append c [] (x ∷ (y ∷ t)) h = ground arith
space_width-append c (d ∷ []) [] h = h
space_width-append c (d ∷ []) (x ∷ t) h = ground arith
space_width-append c (d ∷ (e ∷ p)) t h = h

space_width-append_blank :
    (c : ℕ) (p t : Bytes) → space_width (c ∷ p) ≡ 0 → space_width (c ∷ (p ++ 32 ∷ t)) ≡ 0
unfolding space_width
space_width-append_blank c [] [] h = ground arith
space_width-append_blank c [] (x ∷ t) h = ground arith
space_width-append_blank c (d ∷ []) t h = ground arith
space_width-append_blank c (d ∷ (e ∷ p)) t h = h

width-cases : (n : ℕ) → (n ≡ 0) ⊎ ((m : ℕ) × (n ≡ suc m))
width-cases zero = inl refl
width-cases (suc n) = inr (n, refl)

fields_from_word :
    (c : ℕ) (s : Bytes)
    → space_width (c ∷ s) ≡ 0
    → fields_from 0 (c ∷ s) ≡ (c ∷ (fields_from 0 s).0, (fields_from 0 s).1)
unfolding fields_from
fields_from_word c s h = rw h

fields_from_space :
    (c : ℕ) (s : Bytes) (n : ℕ)
    → space_width (c ∷ s) ≡ suc n
    → fields_from 0 (c ∷ s) ≡ ([], close (fields_from n s))
unfolding fields_from
fields_from_space c s n h = ground arith

fields_from-prefix : (s : Bytes) → (t : Bytes) × ((fields_from 0 s).0 ++ t ≡ s)
fields_from-prefix [] = ([], unfold fields_from in refl)
fields_from-prefix (c ∷ s) = elim (width-cases (space_width (c ∷ s))) [
  | inl z ↦ let (t, e) = fields_from-prefix s in (t, rw (fields_from_word c s z) (ap (◌∷◌ c) e))
  | inr (n, z) ↦ (c ∷ s, rw (fields_from_space c s n z) refl)
]

abbrev Sound : Bytes × List Bytes → Type 0
Sound r = Solid r.0 × All IsWord r.1

close-All : (r : Bytes × List Bytes) → Sound r → All IsWord (close r)
close-All ([], ws) (_, h) = h
close-All (c ∷ w, ws) (solid, h) = ((cc, solid), h)

fields_from_skip : (k c : ℕ) (s : Bytes) → fields_from (suc k) (c ∷ s) ≡ fields_from k s
unfolding fields_from
fields_from_skip k c s = refl

fields_from-Sound : (k : ℕ) (s : Bytes) → Sound (fields_from k s)
fields_from-Sound zero [] = unfold fields_from in (tt, tt)
fields_from-Sound (suc k) [] = unfold fields_from in (tt, tt)
fields_from-Sound (suc k) (c ∷ s) = rw (fields_from_skip k c s) (fields_from-Sound k s)
fields_from-Sound zero (c ∷ s) = elim (width-cases (space_width (c ∷ s))) [
  | inl z ↦
      let (t, e) = fields_from-prefix s in
      let ih = fields_from-Sound 0 s in
      rw (fields_from_word c s z)
        ((space_width-append c (fields_from 0 s).0 t (rw e z), ih.0), ih.1)
  | inr (n, z) ↦
      rw (fields_from_space c s n z) (tt, close-All (fields_from n s) (fields_from-Sound n s))
]

-- Every field is a word.
pub fields-IsWord : (s : Bytes) → All IsWord (fields s)
unfolding fields
fields-IsWord s = close-All (fields_from 0 s) (fields_from-Sound 0 s)

fields_from-Solid : (w : Bytes) → Solid w → fields_from 0 w ≡ (w, [])
fields_from-Solid [] h = unfold fields_from in refl
fields_from-Solid (c ∷ w) (z, h) = fields_from_word c w z ∙ rw (fields_from-Solid w h)

space_width_blank : (t : Bytes) → space_width (32 ∷ t) ≡ 1
unfolding space_width
space_width_blank [] = refl
space_width_blank (c ∷ []) = refl
space_width_blank (c ∷ (d ∷ t)) = refl

fields_from-blank :
    (w rest : Bytes) → Solid w → fields_from 0 (w ++ 32 ∷ rest) ≡ (w, close (fields_from 0 rest))
fields_from-blank [] rest h = fields_from_space 32 rest 0 (space_width_blank rest)
fields_from-blank (c ∷ w) rest (z, h) =
    fields_from_word c _ (space_width-append_blank c w rest z) ∙ rw (fields_from-blank w rest h)

close_word : (w : Bytes) (ws : List Bytes) → w ≢ [] → close (w, ws) ≡ w ∷ ws
close_word [] ws ne = absurd (ne refl)
close_word (c ∷ w) ws ne = refl

-- Words joined by blanks are read back as the words.
pub fields-join : (ws : List Bytes) → All IsWord ws → fields (join (32 ∷ []) ws) ≡ ws
unfolding fields join
fields-join [] h = unfold fields_from in refl
fields-join (w ∷ []) ((ne, solid), _) = rw (fields_from-Solid w solid) (close_word w [] ne)
fields-join (w ∷ (v ∷ ws)) ((ne, solid), h) =
    rw (fields_from-blank w (join (32 ∷ []) (v ∷ ws)) solid)
      (close_word w _ ne ∙ ap (◌∷◌ w) (fields-join (v ∷ ws) h))
