-- ===== src/Ui/Pane/Laws.antt =====
-- ui/panefocus.go and `executablePath` of ui/ui.go: lemmas on the fields and on their cursor.
use le_cli.Prelude.{
  ℕ, zero, suc, ◌+◌, ◌-◌, length-append, map, ◌%◌, ◌<◌, ◌==◌, Bool, true, false, Bool-cases, some,
  List, [], ◌∷◌, ◌++◌, length, get_elem?, take, join, split, codes, Bytes, is_empty, drop, ◌≡◌,
  refl, arith, ◌⊎◌, inl, inr, if◌then◌else◌,
}
use le_cli.Prelude.Int.{ℤ, pos, negsuc, ◌+ℤ◌}
use le_cli.Prelude.Space.{trim_space}
use le_cli.Ui.Row.{Row}
use le_cli.Ui.Cursor.{Screen, selected}
use le_cli.Ui.Pane.{
  field_port, field_cmd, field_dir, field_stop, PaneField, longest_path, quoted_path,
  executable_path, pane_fields, focused_field, rem, move_pane_cursor,
}

-- A text that is empty or the name of a file on the disk.
abbrev pub IsOnDisk : (Bytes → Bool) → Bytes → Type 0
IsOnDisk exists p = (p ≡ []) ⊎ (exists p ≡ true)

longest_path-IsOnDisk :
    (exists : Bytes → Bool) (words : List Bytes) (i : ℕ)
    → IsOnDisk exists (longest_path exists words i)
unfolding longest_path
longest_path-IsOnDisk exists words zero = inl refl
longest_path-IsOnDisk exists words (suc i) =
    elim (Bool-cases (exists (join (codes " ") (take (suc i) words)))) [
      | inl e ↦ rw e (inr e)
      | inr e ↦ rw e (longest_path-IsOnDisk exists words i)
    ]

quoted_path-IsOnDisk :
    (exists : Bytes → Bool) (rest : Bytes) → IsOnDisk exists (quoted_path exists rest)
unfolding quoted_path
quoted_path-IsOnDisk exists rest = ground arith

-- Whatever the command line, the path that is taken for its executable is a name on the disk, if
-- it is not empty.
pub executable_path-IsOnDisk :
    (exists : Bytes → Bool) (cmdline : Bytes) → IsOnDisk exists (executable_path exists cmdline)
unfolding executable_path
executable_path-IsOnDisk exists cmdline =
    let line = trim_space cmdline in
    ground (
      arith,
      quoted_path-IsOnDisk exists (drop 1 line),
      longest_path-IsOnDisk exists (split b' ' line) (length (split b' ' line)),
    )

rem-rem : (x : ℤ) (n : ℕ) → 0 < n → (k : ℕ) × ((rem (rem x n +ℤ pos n) n ≡ pos k) × (k < n))
unfolding ◌+ℤ◌
rem-rem (pos a) n h = ((a % n + n) % n, ground arith)
rem-rem (negsuc a) n h = ((n - suc a % n) % n, ground arith)

after_ports :
    (a b : Bool)
    → 0
      < length (
          (if a then [] else field_cmd ∷ [])
          ++ ((if b then [] else field_dir ∷ []) ++ (field_stop ∷ [])))
after_ports a b = ground arith

-- Every row has a field to act on.
pane_fields_some :
    {F : Type 0} (exists : Bytes → Bool) (r : Row F) → 0 < length (pane_fields exists r)
unfolding pane_fields
pane_fields_some exists r = omega (
  arith,
  length-append (map field_port r.l.ports) _,
  after_ports (is_empty (executable_path exists r.l.command_line)) (is_empty r.l.cwd),
)

get_elem?-some :
    {A : Type 0} (xs : List A) (i : ℕ) → i < length xs → (x : A) × (get_elem? xs i ≡ some x)
get_elem?-some [] i h = elim h [ ]
get_elem?-some (x ∷ xs) zero h = (x, refl)
get_elem?-some (x ∷ xs) (suc i) h = get_elem?-some xs i (omega arith)

eq_zero : (n : ℕ) → 0 < n → (n == 0) ≡ false
eq_zero n h = ground arith

focused_at :
    {F : Type 0} (exists : Bytes → Bool) (m : Screen F) (r : Row F) (i : ℕ) (f : PaneField)
    → selected m ≡ some r
    → m.pane_focus ≡ true
    → m.pane_idx ≡ pos i
    → get_elem? (pane_fields exists r) i ≡ some f
    → focused_field exists m ≡ some f
unfolding focused_field
focused_at exists m r i f h k e g = rw (k, h, e, g) refl

moved :
    {F : Type 0} (exists : Bytes → Bool) (m : Screen F) (r : Row F) (delta : ℤ)
    → selected m ≡ some r
    → move_pane_cursor exists m delta ≡ record m {
      pane_idx =
          (let n = length (pane_fields exists r) in rem (rem (m.pane_idx +ℤ delta) n +ℤ pos n) n);
    }
unfolding move_pane_cursor
moved exists m r delta h =
    rw (h, move_pane_cursor, eq_zero (length (pane_fields exists r)) (pane_fields_some exists r))
      refl

-- While the pane of a selected row has the focus, stepping in it by any number of fields, in either
-- direction, ends on a field of that row.
move_pane_cursor-focused_field :
    {F : Type 0} (exists : Bytes → Bool) (m : Screen F) (r : Row F) (delta : ℤ)
    → selected m ≡ some r
    → m.pane_focus ≡ true
    → (f : PaneField) × (focused_field exists (move_pane_cursor exists m delta) ≡ some f)
unfolding selected
move_pane_cursor-focused_field exists m r delta h k =
    let n = length (pane_fields exists r) in
    let (i, (e, l)) = rem-rem (m.pane_idx +ℤ delta) n (pane_fields_some exists r) in
    let (f, g) = get_elem?-some (pane_fields exists r) i l in
    (
      f,
      rw (moved exists m r delta h) (
          focused_at exists (record m { pane_idx = rem (rem (m.pane_idx +ℤ delta) n +ℤ pos n) n }) r
            i f h k e g),
    )
