-- ===== src/Datacenter/Wire/Frames.antt =====
-- datacenter/database/wire.go: the frames of RESP, described without the reader.
use le_cli.Prelude.{
  ℕ, zero, suc, ◌+◌, ◌*◌, ◌-◌, ◌≤◌, Bytes, Bool, true, false, ◌||◌, length, take, is_empty, [], ◌∷◌,
  ◌++◌, none, if◌then◌else◌, ◌==◌, ◌≡◌,
}
use le_cli.Prelude.Decimal.{atoi}
use le_cli.Prelude.Int.{ℤ, pos, negsuc}
use le_cli.Datacenter.Wire.{ends_crlf, max_rows}

-- A text whose only LF is its last byte.
abbrev pub one_line : Bytes → Bool
one_line [] = false
one_line (c ∷ s) = if c == 10 then is_empty s else one_line s

-- A line that ends with CR LF and fits into the buffer.
pub record IsLine (l : Bytes) : Type 0 where
  pub one : one_line l ≡ true
  pub crlf : ends_crlf l ≡ true
  pub least : 3 ≤ length l
  pub most : length l ≤ 4096

-- A line that begins with a byte and goes on with a number.
pub record IsHeader (b : ℕ) (n : ℤ) (l : Bytes) : Type 0 where
  pub body : Bytes
  pub starts : l ≡ b ∷ body
  pub line : IsLine (b ∷ body)
  pub number : atoi (take (length body - 2) body) ≡ (n, none)

-- So many texts in sequence.
abbrev pub Sequence : (Bytes → Type 0) → ℕ → Bytes → Type 0
Sequence P zero t = t ≡ []
Sequence P (suc n) t = (f : Bytes) × (rest : Bytes) × P f × Sequence P n rest × (t ≡ f ++ rest)

-- A frame whose parts, if it is an array, are as `P` says.
pub data Framed (P : Bytes → Type 0) : Bytes → Type 0 where
  simple :
      (c : ℕ) (l : Bytes)
      → IsLine (c ∷ l)
      → (c == b'+' || c == b'-' || c == b':') ≡ true
      → Framed P (c ∷ l)
  absent_string : (l : Bytes) → IsHeader b'$' (negsuc 0) l → Framed P l
  absent_array : (l : Bytes) → IsHeader b'*' (negsuc 0) l → Framed P l
  string :
      (n : ℕ) (l t f : Bytes)
      → IsHeader b'$' (pos n) l
      → length t ≡ n + 2
      → ends_crlf t ≡ true
      → f ≡ l ++ t
      → Framed P f
  array :
      (n : ℕ) (l t f : Bytes)
      → IsHeader b'*' (pos n) l
      → n ≤ 2 * max_rows + 32
      → Sequence P n t
      → f ≡ l ++ t
      → Framed P f

-- A frame whose arrays are nested less deep than a number of levels.
abbrev pub IsFrame : ℕ → Bytes → Type 0
IsFrame zero t = ⊥
IsFrame (suc levels) t = Framed (IsFrame levels) t
