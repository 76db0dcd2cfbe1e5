-- ===== src/Tools/Text/Json.antt =====
-- tools/text.go: `prettyTextJSON`. `json.Valid` is a parameter.
use le_cli.Prelude.{
  ℕ, zero, suc, ◌+◌, Bytes, Bool, true, false, not, ◌||◌, contains_byte, codes, take, [], ◌∷◌,
  Option, none, some, if◌then◌else◌, ◌==◌,
}
use le_cli.Prelude.Int.{ℤ, pos, negsuc, ◌+ℤ◌, ltb_ℤ, pos_part}
use le_cli.Tools.Text.Output.{
  Result, ok, err, nesting_too_deep, invalid_json, out_of_range, append, newline, ascii_whitespace,
}

-- The first loop, with `quoted` and `escaped`: whether the nesting gets too deep.
unfoldable pub too_deep : ℤ → Bool → Bool → Bytes → Bool
unfolding ◌+ℤ◌
too_deep depth quoted escaped [] = false
too_deep depth true true (c ∷ s) = too_deep depth true false s
too_deep depth true false (c ∷ s) =
    let after = too_deep depth true true s in
    let closed = too_deep depth false false s in
    let inside = too_deep depth true false s in
    if c == 92 then after else if c == b'"' then closed else inside
too_deep depth false escaped (c ∷ s) =
    let string = too_deep depth true escaped s in
    let deeper = too_deep (depth +ℤ pos 1) false escaped s in
    let up = too_deep (depth +ℤ negsuc 0) false escaped s in
    let same = too_deep depth false escaped s in
    if c == b'"'
    then string
    else if c == b'{' || c == b'['
    then (if ltb_ℤ (pos 128) (depth +ℤ pos 1) then true else deeper)
    else if c == b'}' || c == b']'
    then up
    else same

-- The next byte that is no white space.
next_byte : Bytes → Option ℕ
unfolding ascii_whitespace
next_byte [] = none
next_byte (c ∷ s) = let rest = next_byte s in if ascii_whitespace c then rest else some c

-- How many bytes a string goes on, its closing quotation mark included.
string_rest : Bytes → Option ℕ
string_rest [] = none
string_rest (c ∷ []) = if c == b'"' then some 1 else none
string_rest (c ∷ (d ∷ s)) =
    let behind = string_rest s in
    let next = string_rest (d ∷ s) in
    if c == b'"'
    then some 1
    else if c == 92
    then (elim behind [ none ↦ none | some n ↦ some (2 + n) ])
    else (elim next [ none ↦ none | some n ↦ some (1 + n) ])

-- How many bytes a number or a word goes on.
scalar_rest : Bytes → ℕ
unfolding ascii_whitespace contains_byte
scalar_rest [] = 0
scalar_rest (c ∷ s) =
    let n = scalar_rest s in
    if ascii_whitespace c || contains_byte c (codes ",]}") then 0 else suc n

then_newline : Bool → ℤ → Result → Result
unfolding newline
then_newline wanted depth (err e) = err e
then_newline wanted depth (ok out) = if wanted then newline (pos_part depth) out else ok out

then_append : Bytes → Result → Result
unfolding append
then_append addition (err e) = err e
then_append addition (ok out) = append out addition

-- An index is out of range, unless an error came first.
past_end : Result → Result
past_end (err e) = err e
past_end (ok out) = err out_of_range

opens : ℕ → Bool
opens c = c == b'{' || c == b'['

closes : ℕ → Bool
closes c = c == b'}' || c == b']'

closing : ℕ → ℕ
closing c = if c == b'[' then b']' else b'}'

opening : ℕ → ℕ
opening c = if c == b']' then b'[' else b'{'

is_byte : ℕ → Option ℕ → Bool
is_byte b none = false
is_byte b (some c) = c == b

is_some : Option ℕ → Bool
is_some none = false
is_some (some c) = true

-- What one round writes, and how many bytes behind its own it has read; `prev` is the byte of the
-- round before.
unfoldable pub json_round : ℤ → ℕ → Bytes → ℕ → Bytes → Result × ℕ
unfolding then_newline then_append opens closes closing opening is_byte next_byte string_rest
    scalar_rest append ◌+ℤ◌ is_some past_end
json_round depth prev out c s =
    let bracket =
      then_newline (not (is_byte (closing c) (next_byte s))) (depth +ℤ pos 1)
        (append out (c ∷ [])) in
    let close =
      then_append (c ∷ []) (then_newline (not (prev == opening c)) (depth +ℤ negsuc 0) (ok out)) in
    let string : Result × ℕ = elim (string_rest s) [
      | none ↦ (err out_of_range, 0)
      | some n ↦ (append out (c ∷ take n s), n)
    ] in
    if opens c
    then (if is_some (next_byte s) then bracket else past_end (append out (c ∷ [])), 0)
    else if closes c
    then (close, 0)
    else if c == b','
    then (then_newline true depth (append out (c ∷ [])), 0)
    else if c == b':'
    then (append out (b':' ∷ b' ' ∷ []), 0)
    else if c == b'"'
    then string
    else (append out (c ∷ take (scalar_rest s) s), scalar_rest s)

depth_behind : ℤ → ℕ → ℤ
unfolding opens closes ◌+ℤ◌
depth_behind depth c =
    if opens c then depth +ℤ pos 1 else if closes c then depth +ℤ negsuc 0 else depth

-- The second loop; the second number counts the bytes that a round has read in advance.
unfoldable pub json_from : ℤ → ℕ → Bytes → ℕ → Bytes → Result
unfolding json_round depth_behind append ascii_whitespace
json_from depth prev out k [] = append out (10 ∷ [])
json_from depth prev out (suc k) (c ∷ s) = json_from depth prev out k s
json_from depth prev out zero (c ∷ s) =
    let skip = json_from depth prev out 0 s in
    let step = json_round depth prev out c s in
    if ascii_whitespace c
    then skip
    else elim step.0 [ err e ↦ err e | ok next ↦ json_from (depth_behind depth c) c next step.1 s ]

-- `prettyTextJSON`
unfoldable pub pretty_json : (Bytes → Bool) → Bytes → Result
unfolding too_deep json_from
pretty_json json_valid input =
    if too_deep (pos 0) false false input
    then err nesting_too_deep
    else if not (json_valid input)
    then err invalid_json
    else json_from (pos 0) 0 [] 0 input
