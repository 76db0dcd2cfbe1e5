-- ===== src/Intel/Windows/Laws.antt =====
-- intel/windows.go on ASCII command lines.
use le_cli.Prelude.{
  ℕ, zero, suc, ◌+◌, ◌≤◌, ◌<◌, Bytes, codes, has_prefix, Bool, true, length, take, leb, List, [],
  ◌∷◌, Option, some, ◌==◌, ==_iff, ◌≡◌, refl, arith, Bool-cases, Option-cases, inl, inr,
}
use le_cli.Prelude.Letters.{to_lower, index_byte}
use le_cli.Prelude.Letters.Laws.{length-to_lower}
use le_cli.Prelude.Search.{index}
use le_cli.Prelude.Search.Laws.{has_prefix-length, get_elem?-some, take-All}
use le_cli.Prelude.Space.{trim_space}
use le_cli.Prelude.Space.Laws.{trim_space-All}
use le_cli.Prelude.Utf8.{IsAscii}
use le_cli.Intel.Windows.{
  cut_at, first_argument, slice_to, exe_from, quoted, argv0_of, windows_argv0, runs_system,
  is_windows_system,
}

-- The result is an ASCII text, and no panic.
abbrev pub Returns : Option Bytes → Type 0
Returns o = (v : Bytes) × ((o ≡ some v) × IsAscii v)

cut_at-length : (s : Bytes) (seps : List Bytes) → cut_at s seps ≤ length s
unfolding cut_at
cut_at-length s [] = omega arith
cut_at-length s (sep ∷ seps) = elim (Option-cases (index s sep)) [
  | inl e ↦ rw (e, cut_at) (cut_at-length s seps)
  | inr (i, e) ↦ rw (e, cut_at) (omega (arith, cut_at-length s seps))
]

le→leb : (a b : ℕ) → a ≤ b → leb a b ≡ true
le→leb a b h = ground arith

slice_to-Returns : (s : Bytes) (end : ℕ) → IsAscii s → end ≤ length s → Returns (slice_to s end)
unfolding slice_to
slice_to-Returns s end h le = rw (le→leb end (length s) le) (take end s, (refl, take-All _ end s h))

exe_from-Returns :
    (cmd lower : Bytes) (at k : ℕ)
    → IsAscii cmd
    → at + length lower ≡ length cmd
    → Returns (exe_from cmd at k lower)
unfolding exe_from first_argument
exe_from-Returns cmd [] at k h e =
    slice_to-Returns cmd (first_argument cmd) h (cut_at-length cmd (codes " -" ∷ codes " /" ∷ []))
exe_from-Returns cmd (c ∷ lower) at (suc k) h e =
    exe_from-Returns cmd lower (at + 1) k h (omega (arith, e))
exe_from-Returns cmd (c ∷ lower) at zero h e =
    elim (Bool-cases (has_prefix (c ∷ lower) (codes ".exe"))) [
      | inr miss ↦ rw miss (exe_from-Returns cmd lower (at + 1) 0 h (omega (arith, e)))
      | inl hit ↦
          let long = has_prefix-length (c ∷ lower) (codes ".exe") hit in
          (elim (Bool-cases (at + 4 == length cmd)) [
            | inl last ↦ rw (hit, last) (slice_to-Returns cmd (at + 4) h (omega (arith, long, e)))
            | inr more ↦
                let strict : at + 4 < length cmd =
                  ground (arith, long, e, ==_iff (at + 4) (length cmd)) in
                let (d, found) = get_elem?-some cmd (at + 4) strict in
                (elim (Bool-cases (d == b' ')) [
                  | inl blank ↦
                      rw (hit, more, found, blank)
                        (slice_to-Returns cmd (at + 4) h (omega (arith, long, e)))
                  | inr other ↦
                      rw (hit, more, found, other)
                        (exe_from-Returns cmd lower (at + 1) 3 h (omega (arith, e)))
                ])
          ])
    ]

quoted-IsAscii : (s : Bytes) → IsAscii s → IsAscii (quoted s)
unfolding quoted
quoted-IsAscii s h = elim (Option-cases (index_byte b'"' s)) [
  | inl e ↦ rw (e, quoted) h
  | inr (i, e) ↦ rw (e, quoted) (take-All _ i s h)
]

argv0_of-Returns : (s : Bytes) → IsAscii s → Returns (argv0_of s)
unfolding argv0_of
argv0_of-Returns [] h = ([], (refl, tt))
argv0_of-Returns (c ∷ s) (hc, hs) = elim (Bool-cases (c == b'"')) [
  | inl e ↦ rw e (quoted s, (refl, quoted-IsAscii s hs))
  | inr e ↦ rw e (
      exe_from-Returns (c ∷ s) (to_lower (c ∷ s)) 0 0 (hc, hs)
        (omega (arith, length-to_lower (c ∷ s) (hc, hs))))
]

pub windows_argv0-Returns : (cmd : Bytes) → IsAscii cmd → Returns (windows_argv0 cmd)
unfolding windows_argv0
windows_argv0-Returns cmd h = argv0_of-Returns (trim_space cmd) (trim_space-All _ cmd h)

pub is_windows_system-some :
    (cmd user : Bytes) → IsAscii cmd → (b : Bool) × (is_windows_system cmd user ≡ some b)
unfolding is_windows_system
is_windows_system-some cmd user h =
    let (exe, (e, _)) = windows_argv0-Returns cmd h in
    (runs_system exe user, rw (e, is_windows_system) refl)
