-- ===== src/Label.antt =====
-- internal/label/label.go: the labels of rows, with the helper where the identity does not tell them
-- apart. `strings.EqualFold` is a parameter.
pub mod Laws
mod Tests
use le_cli.Prelude.{
  ℕ, zero, suc, ◌+◌, ◌-◌, Bytes, codes, is_empty, Bool, true, false, not, ◌&&◌, ◌||◌, length, take,
  ltb, List, [], ◌∷◌, ◌++◌, Option, none, some, if◌then◌else◌,
}
use le_cli.Prelude.Letters.{to_lower, has_suffix}
use le_cli.Prelude.Maps.{Map, lookup, insert, elem, bytes_eq}
use le_cli.Prelude.Space.{trim_space}
use le_cli.Prelude.Utf8.{lit}

pub record Item : Type 0 where
  pub identity : Bytes
  pub helper : Bytes

abbrev pub noise_suffixes : List Bytes
noise_suffixes =
    codes "_macos"
    ∷ codes "_darwin"
    ∷ codes "_linux"
    ∷ codes "_windows"
    ∷ codes "_arm64"
    ∷ codes "_aarch64"
    ∷ codes "_amd64"
    ∷ codes "_x86_64"
    ∷ codes "_x64"
    ∷ codes "_arm"
    ∷ codes "_x86"
    ∷ codes "-macos"
    ∷ codes "-darwin"
    ∷ codes "-linux"
    ∷ codes "-windows"
    ∷ codes "-arm64"
    ∷ codes "-aarch64"
    ∷ codes "-amd64"
    ∷ codes "-x86_64"
    ∷ codes "-x64"
    ∷ codes "-arm"
    ∷ codes "-x86"
    ∷ []

unfoldable pub removable : Bytes → Bytes → Bool
unfolding has_suffix to_lower
removable h suffix = ltb (length suffix) (length h) && has_suffix (to_lower h) suffix

-- One pass over the suffixes: what is left, and whether something was cut.
unfoldable pub strip_pass : List Bytes → Bytes → Bytes × Bool
unfolding removable
strip_pass [] h = (h, false)
strip_pass (suffix ∷ rest) h =
    let cut = strip_pass rest (take (length h - length suffix) h) in
    let kept = strip_pass rest h in if removable h suffix then (cut.0, true) else kept

-- The loop, at most so many passes of it: `none` if more are needed.
unfoldable pub strip : ℕ → List Bytes → Bytes → Option Bytes
unfolding strip_pass
strip zero suffixes h = none
strip (suc passes) suffixes h =
    let next = strip passes suffixes (strip_pass suffixes h).0 in
    if (strip_pass suffixes h).1 then next else some (strip_pass suffixes h).0

module _ (equal_fold : Bytes → Bytes → Bool) where
  adds_nothing : Bytes → Bytes → Bool
  adds_nothing identity h = is_empty h || equal_fold h identity

  -- `shortHelper`. Each pass but the last one shortens the name, so a pass more than it has bytes
  -- is enough.
  unfoldable pub short_helper : Bytes → Bytes → Bytes
  unfolding adds_nothing strip trim_space
  short_helper identity helper =
      let h = trim_space helper in
      if adds_nothing identity h then [] else elim (strip (length h + 1) noise_suffixes h) [
        | none ↦ []
        | some r ↦ (if adds_nothing identity r then [] else r)
      ]

  -- What the items of an identity have as helpers, each once.
  abbrev Helpers : Type 0
  Helpers = Map Bytes (List Bytes)

  helpers_of : Bytes → Helpers → List Bytes
  unfolding lookup
  helpers_of identity m = elim (lookup identity m) [ none ↦ [] | some set ↦ set ]

  add_helper : Helpers → Item → Helpers
  unfolding helpers_of insert elem short_helper
  add_helper m it =
      let h = short_helper it.identity it.helper in
      let set = helpers_of it.identity m in
      insert it.identity (if elem h set then set else set ++ h ∷ []) m

  collect_helpers : Helpers → List Item → Helpers
  unfolding add_helper
  collect_helpers m [] = m
  collect_helpers m (it ∷ items) = collect_helpers (add_helper m it) items

  label_with : Helpers → Item → Bytes
  unfolding helpers_of short_helper lit
  label_with m it =
      let h = short_helper it.identity it.helper in
      if not (is_empty h) && ltb 1 (length (helpers_of it.identity m))
      then it.identity ++ (lit " · " ++ h)
      else it.identity

  labels : Helpers → List Item → List Bytes
  unfolding label_with
  labels m [] = []
  labels m (it ∷ items) = label_with m it ∷ labels m items

  -- `Disambiguate`
  unfoldable pub disambiguate : List Item → List Bytes
  unfolding collect_helpers labels
  disambiguate items = labels (collect_helpers [] items) items
