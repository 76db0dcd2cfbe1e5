-- ===== src/Tools/Text/Output.antt =====
-- tools/text.go: the errors, and the output that does not grow beyond its limit.
use le_cli.Prelude.{
  ℕ, zero, suc, ◌+◌, ◌-◌, Bytes, Bool, ◌||◌, length, ltb, within, [], ◌∷◌, ◌++◌, if◌then◌else◌,
  ◌==◌,
}

abbrev pub text_maximum_bytes : ℕ
text_maximum_bytes = 1048576

-- `out_of_range` is no error of the source: it stands for an index out of range.
pub data TextError : Type 0 where
  input_too_large output_too_large invalid_utf8 invalid_json nesting_too_deep : TextError
  invalid_base64 invalid_percent invalid_epoch random_failed unsupported out_of_range : TextError

pub data Result : Type 0 where
  ok : Bytes → Result
  err : TextError → Result

-- `boundedTextOutput.append`
unfoldable pub append : Bytes → Bytes → Result
append out addition =
    if ltb (text_maximum_bytes - length out) (length addition)
    then err output_too_large
    else ok (out ++ addition)

unfoldable pub indent : ℕ → Bytes → Result
unfolding append
indent zero out = ok out
indent (suc depth) out = elim (append out (32 ∷ 32 ∷ 32 ∷ 32 ∷ [])) [
  | ok next ↦ indent depth next
  | err e ↦ err e
]

-- `boundedTextOutput.newline`
unfoldable pub newline : ℕ → Bytes → Result
unfolding indent append
newline depth out = elim (append out (10 ∷ [])) [ ok next ↦ indent depth next | err e ↦ err e ]

unfoldable pub ascii_whitespace : ℕ → Bool
ascii_whitespace c = c == b' ' || within 9 13 c

-- A digit of the text "0123456789ABCDEF"
unfoldable pub hex_digit : ℕ → ℕ
hex_digit n = if ltb n 10 then b'0' + n else b'A' + (n - 10)
