-- ===== src/Intel/Brew.antt =====
-- intel/intel.go: `brewFormula`, with the matches of `cellarRe`.
use le_cli.Prelude.{
  ℕ, zero, suc, ◌+◌, ◌-◌, Bytes, codes, contains, contains_byte, str_eq, is_empty, Bool, false, not,
  ◌&&◌, ◌||◌, within, List, [], ◌∷◌, Option, none, some, if◌then◌else◌, ◌==◌, take,
}
use le_cli.Prelude.Letters.{to_lower, index_byte}

fold1 : ℕ → ℕ
fold1 c = if within b'A' b'Z' c then c + 32 else c

-- The character at the head as `(?i)` reads it, and what follows it: the letters A to Z, and the
-- two characters beyond ASCII (U+017F and U+212A) that fold to an ASCII letter.
unfoldable pub fold_head : ℕ → Bytes → ℕ × Bytes
unfolding fold1
fold_head c [] = (fold1 c, [])
fold_head c (d ∷ []) = if c == 0xC5 && d == 0xBF then (b's', []) else (fold1 c, d ∷ [])
fold_head c (d ∷ (e ∷ s)) =
    if c == 0xC5 && d == 0xBF
    then (b's', e ∷ s)
    else if c == 0xE2 && d == 0x84 && e == 0xAA
    then (b'k', s)
    else (fold1 c, d ∷ (e ∷ s))

-- What follows the pattern, if the text begins with it.
unfoldable pub strip_fold : Bytes → Bytes → Option Bytes
unfolding fold_head
strip_fold [] s = some s
strip_fold (p ∷ ps) [] = none
strip_fold (p ∷ ps) (c ∷ s) =
    let rest = strip_fold ps (fold_head c s).1 in if (fold_head c s).0 == p then rest else none

name_byte : ℕ → Bool
name_byte c = within b'a' b'z' (fold1 c) || within b'0' b'9' c || contains_byte c (codes "@._+-")

-- The bytes of the character at the head, if the class `[a-z0-9@._+-]` has it, or 0.
unfoldable pub name_width : ℕ → Bytes → ℕ
unfolding name_byte fold1 contains_byte
name_width c [] = if name_byte c then 1 else 0
name_width c (d ∷ []) = if name_byte c then 1 else if c == 0xC5 && d == 0xBF then 2 else 0
name_width c (d ∷ (e ∷ s)) =
    if name_byte c
    then 1
    else if c == 0xC5 && d == 0xBF
    then 2
    else if c == 0xE2 && d == 0x84 && e == 0xAA
    then 3
    else 0

-- The longest run of the class.
unfoldable pub name_from : ℕ → Bytes → Bytes
unfolding name_width
name_from k [] = []
name_from (suc k) (c ∷ s) = c ∷ name_from k s
name_from zero (c ∷ s) =
    let more = name_from (name_width c s - 1) s in if name_width c s == 0 then [] else c ∷ more

-- The captured name if one of the prefixes stands in front.
unfoldable pub match_here : List Bytes → Bytes → Bytes
unfolding strip_fold name_from
match_here [] s = []
match_here (p ∷ ps) s =
    let rest = match_here ps s in
    elim (strip_fold p s) [
      | none ↦ rest
      | some t ↦ (if is_empty (name_from 0 t) then rest else name_from 0 t)
    ]

abbrev prefixes : List Bytes
prefixes = codes "/cellar/" ∷ codes "homebrew/opt/" ∷ codes "/usr/local/opt/" ∷ []

-- `cellarRe.FindStringSubmatch`: the name at the leftmost match, or the empty text
unfoldable pub cellar_match : Bytes → Bytes
unfolding match_here
cellar_match [] = []
cellar_match (c ∷ s) =
    let rest = cellar_match s in
    let here = match_here prefixes (c ∷ s) in if is_empty here then rest else here

before_at : Bytes → Bytes
unfolding index_byte
before_at s = elim (index_byte b'@' s) [ none ↦ s | some i ↦ take i s ]

any_contained : Bytes → List Bytes → Bool
unfolding contains
any_contained s [] = false
any_contained s (p ∷ ps) = contains s p || any_contained s ps

-- `brewFormula`
unfoldable pub brew_formula : Bytes → Bytes
unfolding to_lower any_contained cellar_match before_at str_eq
brew_formula cmd =
    let f = to_lower (before_at (cellar_match cmd)) in
    if not (any_contained (to_lower cmd) prefixes)
    then []
    else if str_eq f (codes "homebrew")
    then []
    else f
