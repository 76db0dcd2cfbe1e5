-- ===== src/Tools/Text.antt =====
-- tools/text.go: the transformations of texts, with bounded output. Base64, SHA-256, `url.PathUnescape`,
-- `json.Valid`, the format of a date, the clock and the random bytes are parameters.
pub mod Json
pub mod Output
pub mod Laws
mod Tests
use le_cli.Prelude.{
  ℕ, zero, suc, ◌+◌, ◌-◌, ◌*◌, ◌/◌, ◌%◌, Bytes, codes, Bool, true, false, not, ◌&&◌, ◌||◌,
  contains_byte, length, take, drop, ltb, within, List, [], ◌∷◌, ◌++◌, Option, none, some,
  if◌then◌else◌, ◌==◌,
}
use le_cli.Prelude.Decimal.{atoi, itoa, NumError, digits}
use le_cli.Prelude.Int.{ℤ, pos, negsuc, leb_ℤ}
use le_cli.Prelude.Space.{trim_space, space_width}
use le_cli.Prelude.Utf8.{valid_string, rune_width}
use le_cli.Tools.Text.Json.{pretty_json}
use le_cli.Tools.Text.Output.{
  text_maximum_bytes, Result, ok, err, TextError, input_too_large, output_too_large, invalid_utf8,
  invalid_json, invalid_base64, invalid_percent, invalid_epoch, random_failed, unsupported, append,
  hex_digit, ascii_whitespace,
}

-- What is asked of the libraries and of the system.
pub record Outside : Type 0 where
  pub now : ℤ
  pub random : ℕ → Option Bytes
  pub json_valid : Bytes → Bool
  pub rfc3339 : ℤ → Bytes
  pub base64_encode : Bytes → Bytes
  pub base64_decode : Bytes → Option Bytes
  pub path_unescape : Bytes → Option Bytes
  pub sha256_hex : Bytes → Bytes

-- `operation`; `other` stands for every other text.
pub data Operation : Type 0 where
  uuid json epoch epoch_to_date plain base64_encode base64_decode : Operation
  url_encode url_decode count sha256 lorem gitignore password other : Operation

-- `validateTextInput`: its error
unfoldable pub input_error : Bytes → Option TextError
unfolding valid_string
input_error input =
    if ltb text_maximum_bytes (length input)
    then some input_too_large
    else if not (valid_string input)
    then some invalid_utf8
    else none

-- `validTextEpoch`
unfoldable pub valid_epoch : ℤ → Bool
valid_epoch seconds = leb_ℤ (negsuc 62135596799) seconds && leb_ℤ seconds (pos 253402300799)

unfoldable pub url_plain : ℕ → Bool
unfolding contains_byte
url_plain c =
    within b'A' b'Z' c
    || within b'a' b'z' c
    || within b'0' b'9' c
    || contains_byte c (codes "-._~/")

-- What is written for a byte.
unfoldable pub url_byte : ℕ → Bytes
unfolding url_plain hex_digit
url_byte c = if url_plain c then c ∷ [] else b'%' ∷ hex_digit (c / 16) ∷ hex_digit (c % 16) ∷ []

unfoldable pub url_bytes : Bytes → Bytes → Result
unfolding url_byte append
url_bytes out [] = ok out
url_bytes out (c ∷ s) = elim (append out (url_byte c)) [
  | ok next ↦ url_bytes next s
  | err e ↦ err e
]

-- `encodeTextURL`
unfoldable pub encode_url : Bytes → Result
unfolding url_bytes
encode_url input = url_bytes [] input

base64_char : ℕ → Bool
unfolding contains_byte
base64_char c =
    within b'A' b'Z' c || within b'a' b'z' c || within b'0' b'9' c || contains_byte c (codes "+/=")

without_space : Bytes → Option Bytes
unfolding base64_char ascii_whitespace
without_space [] = some []
without_space (c ∷ s) =
    let rest = without_space s in
    let more : Option Bytes = elim rest [ none ↦ none | some t ↦ some (c ∷ t) ] in
    if ascii_whitespace c then rest else if base64_char c then more else none

-- `decodeTextBase64`
unfoldable pub decode_base64 : Outside → Bytes → Result
unfolding without_space
decode_base64 w input = elim (without_space input) [
  | none ↦ err invalid_base64
  | some encoded ↦
      (if not (length encoded % 4 == 0)
        then err invalid_base64
        else (elim (w.base64_decode encoded) [ none ↦ err invalid_base64 | some out ↦ ok out ]))
]

-- The counts of lines, words and characters, and whether a word goes on.
pub record Counts : Type 0 where
  pub lines : ℕ
  pub words : ℕ
  pub characters : ℕ
  pub in_word : Bool

unfoldable pub count_from : Counts → ℕ → Bytes → Counts
unfolding rune_width space_width
count_from n k [] = n
count_from n (suc k) (c ∷ s) = count_from n k s
count_from n zero (c ∷ s) =
    let space = not (space_width (c ∷ s) == 0) in
    let starts = not space && not n.in_word in
    let next : Counts = record {
      lines = if c == 10 then suc n.lines else n.lines;
      words = if starts then suc n.words else n.words;
      characters = suc n.characters;
      in_word = not space;
    } in
    count_from next (rune_width c s - 1) s

count_report : Bytes → Bytes
unfolding count_from digits
count_report input =
    let n = count_from (record { lines = 0; words = 0; characters = 0; in_word = false }) 0 input in
    codes "lines: "
    ++ (digits n.lines
        ++ (codes "\nwords: "
            ++ (digits n.words ++ (codes "\nchars: " ++ (digits n.characters ++ codes "\n")))))

hex : Bytes → Bytes
unfolding hex_digit
hex [] = []
hex (c ∷ s) = hex_digit (c / 16) ∷ hex_digit (c % 16) ∷ hex s

-- The version and the variant are set in the bytes 6 and 8.
uuid_text : Bytes → Bytes
unfolding hex
uuid_text v =
    let at : Bytes → (ℕ → ℕ) → Bytes = λ b f. elim b [ [] ↦ [] | c ∷ cs ↦ f c ∷ cs ] in
    let low = at (drop 6 (take 8 v)) (λ c. c % 16 + 0x40) in
    let variant = at (drop 8 (take 10 v)) (λ c. c % 64 + 0x80) in
    hex (take 4 v)
    ++ (codes "-"
        ++ (hex (drop 4 (take 6 v))
            ++ (codes "-"
                ++ (hex low
                    ++ (codes "-"
                        ++ (hex variant ++ (codes "-" ++ (hex (drop 10 v) ++ codes "\n"))))))))

abbrev lorem_text : Bytes
lorem_text =
    codes
      "Lorem ipsum dolor sit amet, consectetur adipiscing elit, sed do eiusmod tempor incididunt ut labore et dolore magna aliqua. Ut enim ad minim veniam, quis nostrud exercitation ullamco laboris nisi ut aliquip ex ea commodo consequat.\n\nDuis aute irure dolor in reprehenderit in voluptate velit esse cillum dolore eu fugiat nulla pariatur. Excepteur sint occaecat cupidatat non proident, sunt in culpa qui officia deserunt mollit anim id est laborum.\n"

abbrev gitignore_text : Bytes
gitignore_text =
    codes
      ".DS_Store\n*.swp\n.env\n.env.*\n!.env.example\nnode_modules/\ndist/\nbuild/\ncoverage/\n__pycache__/\n*.pyc\n.venv/\nvenv/\n.pytest_cache/\n.mypy_cache/\n*.log\n.idea/\n.vscode/\n"

-- `readAll` of the random source
with_random : Outside → ℕ → (Bytes → Result) → Result
with_random w n use_bytes = elim (w.random n) [
  | none ↦ err random_failed
  | some value ↦ use_bytes value
]

epoch_date : Outside → ℤ × Option NumError → Result
unfolding valid_epoch
epoch_date w (seconds, some e) = err invalid_epoch
epoch_date w (seconds, none) =
    if not (valid_epoch seconds) then err invalid_epoch else ok (w.rfc3339 seconds ++ codes "\n")

-- The switch.
unfoldable pub produce : Outside → Operation → Bytes → Result
unfolding with_random uuid_text pretty_json valid_epoch epoch_date trim_space decode_base64
    encode_url count_report
produce w uuid input = with_random w 16 (λ v. ok (uuid_text v))
produce w json input = pretty_json w.json_valid input
produce w epoch input =
    if not (valid_epoch w.now) then err invalid_epoch else ok (itoa w.now ++ codes "\n")
produce w epoch_to_date input = epoch_date w (atoi (trim_space input))
produce w plain input = ok input
produce w base64_encode input =
    if ltb text_maximum_bytes ((length input + 2) / 3 * 4 + 1)
    then err output_too_large
    else ok (w.base64_encode input ++ codes "\n")
produce w base64_decode input = decode_base64 w input
produce w url_encode input = encode_url (trim_space input)
produce w url_decode input = elim (w.path_unescape (trim_space input)) [
  | none ↦ err invalid_percent
  | some out ↦ ok out
]
produce w count input = ok (count_report input)
produce w sha256 input = ok (w.sha256_hex input ++ codes "\n")
produce w lorem input = ok lorem_text
produce w gitignore input = ok gitignore_text
produce w password input = with_random w 24 (λ v. ok (w.base64_encode v ++ codes "\n"))
produce w other input = err unsupported

-- The checks of the whole result.
unfoldable pub checked : Result → Result
unfolding valid_string
checked (err e) = err e
checked (ok out) =
    if ltb text_maximum_bytes (length out)
    then err output_too_large
    else if not (valid_string out)
    then err invalid_utf8
    else ok out

-- `Transform`
unfoldable pub transform : Outside → Operation → Bytes → Result
unfolding input_error produce checked
transform w operation input = elim (input_error input) [
  | some e ↦ err e
  | none ↦ checked (produce w operation input)
]
