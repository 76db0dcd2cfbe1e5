-- ===== src/Intel/AppName/Laws.antt =====
-- intel/appname.go on ASCII command lines.
use le_cli.Prelude.{
  ℕ, ◌+◌, ◌≤◌, Bytes, Bool, true, false, not, is_empty, length, ltb, List, [], ◌∷◌, Option, some,
  if◌then◌else◌, ◌≡◌, refl, arith, Option-cases, inl, inr,
}
use le_cli.Prelude.Letters.{to_lower}
use le_cli.Prelude.Letters.Laws.{length-to_lower}
use le_cli.Prelude.Search.{index}
use le_cli.Prelude.Search.Laws.{index-length}
use le_cli.Prelude.Space.{trim_space}
use le_cli.Prelude.Utf8.{IsAscii}
use le_cli.Intel.Windows.Laws.{windows_argv0-Returns}
use le_cli.Intel.AppName.{
  segment_after_fold, first_root, roots, has_drive, windows_app_name, app_name, helper_suffix,
}
use le_cli.Scan.Listener.{Listener}

-- There is a result, and no panic.
abbrev pub IsSome : {A : Type 0} → Option A → Type 0
IsSome {A} o = (v : A) × (o ≡ some v)

pub if-IsSome :
    {A : Type 0} (b : Bool) (o p : Option A) → IsSome o → IsSome p → IsSome (if b then o else p)
if-IsSome true o p ho hp = ho
if-IsSome false o p ho hp = hp

not_less : (a b : ℕ) → a ≤ b → ltb b a ≡ false
not_less a b h = ground arith

segment_after_fold-IsSome :
    (path marker : Bytes) → IsAscii path → IsSome (segment_after_fold path marker)
unfolding segment_after_fold
segment_after_fold-IsSome path marker h = elim (Option-cases (index (to_lower path) marker)) [
  | inl e ↦ rw (e, segment_after_fold) ([], refl)
  | inr (i, e) ↦
      let within = index-length (to_lower path) marker i e in
      let fits =
        not_less (i + length marker) (length path)
          (omega (arith, within, length-to_lower path h)) in
      rw (e, segment_after_fold, fits) (_, refl)
]

first_root-IsSome : (argv0 : Bytes) (rs : List Bytes) → IsAscii argv0 → IsSome (first_root argv0 rs)
unfolding first_root
first_root-IsSome argv0 [] h = ([], refl)
first_root-IsSome argv0 (r ∷ rs) h =
    let (name, e) = segment_after_fold-IsSome argv0 r h in
    rw (e, first_root)
      (if-IsSome (is_empty name) (first_root argv0 rs) (some name) (first_root-IsSome argv0 rs h)
        (name, refl))

windows_app_name-IsSome : (cmd : Bytes) → IsAscii cmd → IsSome (windows_app_name cmd)
unfolding windows_app_name
windows_app_name-IsSome cmd h =
    let (argv0, (e, plain)) = windows_argv0-Returns cmd h in
    rw (e, windows_app_name)
      (if-IsSome (not (has_drive argv0)) (some []) (first_root argv0 roots) ([], refl)
        (first_root-IsSome argv0 roots plain))

pub app_name-IsSome : (cmd : Bytes) → IsAscii cmd → IsSome (app_name cmd)
unfolding app_name
app_name-IsSome cmd h = let (name, e) = windows_app_name-IsSome cmd h in rw (e, app_name) (_, refl)

pub helper_suffix-IsSome :
    {F : Type 0} (l : Listener F) → IsAscii l.command_line → IsSome (helper_suffix l)
unfolding helper_suffix
helper_suffix-IsSome l h =
    let (app, e) = app_name-IsSome l.command_line h in
    if-IsSome (is_empty (trim_space l.command)) (some []) _ ([], refl)
      (rw (e, helper_suffix) (_, refl))
