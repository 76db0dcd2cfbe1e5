-- ===== src/Intel/Words.antt =====
-- intel/intel.go: `wordMatch`, the search for a text between word boundaries.
pub mod Laws
use le_cli.Prelude.{
  ℕ, zero, suc, ◌+◌, ◌-◌, Bytes, Bool, true, false, not, ◌&&◌, ◌||◌, is_empty, length, drop,
  get_elem?, within, List, [], ◌∷◌, Option, none, some, if◌then◌else◌, ◌==◌,
}
use le_cli.Prelude.Letters.{to_lower}
use le_cli.Prelude.Search.{index}

unfoldable pub is_word_cont : ℕ → Bool
is_word_cont c = c == b'_' || within b'a' b'z' c || within b'0' b'9' c

-- No letter, digit or underscore stands at the place.
unfoldable pub open_at : Option ℕ → Bool
open_at none = true
open_at (some c) = not (is_word_cont c)

unfoldable pub before_ok : Bytes → ℕ → Bool
unfolding open_at
before_ok h i = i == 0 || open_at (get_elem? h (i - 1))

unfoldable pub after_ok : Bytes → ℕ → Bool
unfolding open_at
after_ok h end = open_at (get_elem? h end)

-- The loop, at most so many rounds of it: `none` if more are needed.
unfoldable pub match_from : ℕ → Bytes → Bytes → ℕ → Option Bool
unfolding index before_ok after_ok
match_from zero h n from = none
match_from (suc rounds) h n from = elim (index (drop from h) n) [
  | none ↦ some false
  | some j ↦
      let rest = match_from rounds h n (suc (j + from)) in
      if before_ok h (j + from) && after_ok h (j + from + length n) then some true else rest
]

-- The rounds that a text allows are one more than its bytes.
unfoldable pub word_match : Bytes → Bytes → Bool
unfolding match_from to_lower
word_match haystack needle =
    let h = to_lower haystack in
    let n = to_lower needle in
    let found = match_from (length h + 1) h n 0 in
    if is_empty n then false else elim found [ none ↦ false | some b ↦ b ]

unfoldable pub any_word : Bytes → List Bytes → Bool
unfolding word_match
any_word text [] = false
any_word text (n ∷ ns) = word_match text n || any_word text ns
