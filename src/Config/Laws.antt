-- ===== src/Config/Laws.antt =====
-- config/config.go: lemmas on the interval that is loaded and on quoted values.
use le_cli.Prelude.{
  ℕ, zero, suc, ◌+◌, true, ◌&&◌, ◌||◌, ◌==◌, some, List, [], ◌∷◌, ◌++◌, length, take, drop, Bytes,
  ◌≡◌, ◌⊎◌, refl, ap, arith, leb, split, length-append,
}
use le_cli.Prelude.Space.{trim_space}
use le_cli.Config.{
  Config, defaults, interval, last, unquote, in_range, set_interval, set, load_line, load_lines,
  FileRead, contents, missing, unreadable, load,
}

-- The interval is one that the program refreshes at: from a second to an hour.
abbrev pub IsBounded : Config → Type 0
IsBounded c = in_range c.interval_seconds ≡ true

set_interval-IsBounded : (c : Config) (val : Bytes) → IsBounded c → IsBounded (set_interval c val)
unfolding set_interval
set_interval-IsBounded c val h = ground arith

set-IsBounded : (c : Config) (key val : Bytes) → IsBounded c → IsBounded (set c key val)
unfolding set
set-IsBounded c key val h = ground (arith, set_interval-IsBounded c val h)

load_line-IsBounded : (c : Config) (l : Bytes) → IsBounded c → IsBounded (load_line c l)
unfolding load_line
load_line-IsBounded c l h =
    let line = trim_space l in
    ground (
      arith,
      λ (i : ℕ).
          set-IsBounded c (trim_space (take i line)) (unquote (trim_space (drop (i + 1) line))) h,
    )

load_lines-IsBounded : (c : Config) (ls : List Bytes) → IsBounded c → IsBounded (load_lines c ls)
unfolding load_lines
load_lines-IsBounded c [] h = h
load_lines-IsBounded c (l ∷ ls) h =
    load_lines-IsBounded (load_line c l) ls (load_line-IsBounded c l h)

bounded_interval : (c : Config) → IsBounded c → interval c ≡ c.interval_seconds
unfolding interval
bounded_interval c h = ground arith

load_bounds : (path : Bytes) (file : FileRead) → IsBounded (load path file).0
unfolding load
load_bounds path (contents text) = load_lines-IsBounded defaults (split b'\n' text) refl
load_bounds path missing = refl
load_bounds path (unreadable e) = refl

-- Whatever the file is, the interval that is loaded is one from a second to an hour, and the
-- program refreshes at just that interval.
pub load-IsBounded :
    (path : Bytes) (file : FileRead)
    → IsBounded (load path file).0
      × (interval (load path file).0 ≡ (load path file).0.interval_seconds)
load-IsBounded path file =
    (load_bounds path file, bounded_interval (load path file).0 (load_bounds path file))

last-concat : (s : Bytes) (q : ℕ) → last (s ++ q ∷ []) ≡ some q
last-concat [] q = refl
last-concat (c ∷ []) q = refl
last-concat (c ∷ (d ∷ s)) q = last-concat (d ∷ s) q

take-append_length : (s t : Bytes) (n : ℕ) → n ≡ length s → take n (s ++ t) ≡ s
take-append_length [] t n h = rw h refl
take-append_length (c ∷ s) t zero h = ground arith
take-append_length (c ∷ s) t (suc n) h = ap (◌∷◌ c) (take-append_length s t n (omega arith))

-- A text between two quotation marks of the same kind loses them, and only them.
pub unquote-quoted :
    (q : ℕ) (s : Bytes) → (q ≡ b'"') ⊎ (q ≡ b'\'') → unquote (q ∷ (s ++ q ∷ [])) ≡ s
unfolding unquote
unquote-quoted q s h =
    rw (guard q s h, last-concat s q, same q)
      (take-append_length s (q ∷ []) _ (omega (arith, length-append s (q ∷ []))))
  where
    same : (q : ℕ) → (q == q) ≡ true
    same q = ground arith

    guard :
        (q : ℕ) (s : Bytes)
        → (q ≡ b'"') ⊎ (q ≡ b'\'')
        → (leb 2 (suc (length (s ++ q ∷ []))) && (q == b'"' || q == b'\'')) ≡ true
    guard q s h = ground (arith, length-append s (q ∷ []))
