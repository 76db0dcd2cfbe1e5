-- ===== src/Prelude/Search.antt =====
-- Go's `strings`: the first place of a text in another one, prefixes and suffixes.
pub mod Laws
use le_cli.Prelude.Lists.{length, drop}
use le_cli.Prelude.Tests.{if◌then◌else◌}
use le_cli.Prelude.Text.{Bytes, has_prefix, contains_byte}
use le_cli.Prelude.Letters.{has_suffix}
use Prim.Native.Nat.{ℕ, suc}
use mathlib.Core.Bool.{Bool, false, ◌||◌}
use mathlib.Core.List.{List, [], ◌∷◌}
use mathlib.Core.Option.{Option, none, some}

-- `strings.Index`
unfoldable pub index : Bytes → Bytes → Option ℕ
unfolding has_prefix
index [] pat = if has_prefix [] pat then some 0 else none
index (c ∷ s) pat =
    let rest = index s pat in
    if has_prefix (c ∷ s) pat then some 0 else elim rest [ none ↦ none | some i ↦ some (suc i) ]

-- `strings.TrimPrefix`
unfoldable pub trim_prefix : Bytes → Bytes → Bytes
unfolding has_prefix
trim_prefix s pat = if has_prefix s pat then drop (length pat) s else s

contains_any : Bytes → Bytes → Bool
contains_any set [] = false
contains_any set (c ∷ s) = contains_byte c set || contains_any set s

-- What follows the last byte of the set, or the whole text if none occurs.
unfoldable pub after_last_any : Bytes → Bytes → Bytes
unfolding contains_byte contains_any
after_last_any set [] = []
after_last_any set (c ∷ s) =
    let rest = after_last_any set s in
    if contains_any set s then rest else if contains_byte c set then s else c ∷ s

unfoldable pub any_suffix : Bytes → List Bytes → Bool
unfolding has_suffix
any_suffix s [] = false
any_suffix s (x ∷ xs) = has_suffix s x || any_suffix s xs
