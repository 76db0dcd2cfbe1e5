-- ===== src/Datacenter/Results.antt =====
-- datacenter/database/query.go and datacenter/database/redis.go: the check of a query, and the results
-- that are built from the answers of Redis. `json.Marshal` is a parameter, of which only the length
-- counts.
pub mod Laws
mod Tests
use le_cli.Prelude.{
  ℕ, zero, suc, ◌+◌, ◌*◌, ◌-◌, ◌^◌, ◌%◌, Bytes, codes, Bool, true, false, not, ◌&&◌, ◌||◌, length,
  List, [], ◌∷◌, ◌++◌, map, Option, none, some, if◌then◌else◌, ltb, leb, ◌==◌, str_eq, is_empty,
  contains_byte,
}
use le_cli.Prelude.Decimal.{Scan, value, failed, parse_uint}
use le_cli.Prelude.Int.{ℤ, pos, negsuc, ltb_ℤ, leb_ℤ, ◌+ℤ◌, opp}
use le_cli.Prelude.Runes.{plain}
use le_cli.Prelude.Space.{trim_space}
use le_cli.Prelude.Utf8.{valid_string}
use le_cli.Datacenter.Wire.{max_result, max_rows}

abbrev pub max_input : ℕ
max_input = 65536

pub data QueryError : Type 0 where
  bad_config over_limit query_failed : QueryError

pub data Result (A : Type 0) : Type 0 where
  ok : A → Result A
  err : QueryError → Result A

infixl 5 ◌>>=◌
abbrev pub ◌>>=◌ : {A B : Type 0} → Result A → (A → Result B) → Result B
ok a >>= f = f a
err e >>= f = err e

-- A Go `any` as go-redis gives it; a failure is an error inside an array.
mutual
  pub data Value : Type 0 where
    null : Value
    text raw failure : Bytes → Value
    number : ℤ → Value
    array : Values → Value

  pub data Values : Type 0 where
    end : Values
    item : Value → Values → Values

abbrev pub to_list : Values → List Value
to_list end = []
to_list (item v vs) = v ∷ to_list vs

pub record Library : Type 0 where
  pub empty_length : List Bytes → Option ℕ
  pub row_length : List Value → Option ℕ

-- `validInput`: its error
unfoldable pub valid_input : Bytes → Option QueryError
unfolding trim_space valid_string contains_byte
valid_input input =
    if ltb max_input (length input)
    then some over_limit
    else if length (trim_space input) == 0 || not (valid_string input) || contains_byte 0 input
    then some bad_config
    else none

-- `resultBuilder`, with the columns and rows of its result.
pub record Builder : Type 0 where
  pub columns : List Bytes
  pub rows : List (List Value)
  pub size : ℕ

-- `builder`
unfoldable pub started : List Bytes → Option ℕ → Result Builder
started columns none = err query_failed
started columns (some n) =
    if ltb 256 (length columns) || ltb max_result n
    then err over_limit
    else ok (record { columns = columns; rows = []; size = n })

unfoldable pub builder : Library → List Bytes → Result Builder
unfolding started
builder lib columns = started columns (lib.empty_length columns)

unfoldable pub as_text : Value → Value
as_text (raw s) = text s
as_text v = v

unfoldable pub readable : Value → Bool
unfolding valid_string
readable (text s) = valid_string s
readable v = true

-- The loop over a row: bytes become texts, and every text is valid UTF-8.
unfoldable pub readable_row : List Value → Option (List Value)
unfolding as_text readable
readable_row [] = some []
readable_row (v ∷ vs) =
    let rest = readable_row vs in
    let here = as_text v in
    if not (readable here) then none else (elim rest [ none ↦ none | some out ↦ some (here ∷ out) ])

-- `add`
unfoldable pub add : Library → Builder → List Value → Result Builder
unfolding readable_row
add lib b row =
    if leb max_rows (length b.rows)
    then err over_limit
    else if not (length row == length b.columns)
    then err query_failed
    else (elim (readable_row row) [
      | none ↦ err query_failed
      | some out ↦ (elim (lib.row_length out) [
        | none ↦ err query_failed
        | some n ↦
            (if ltb max_result (b.size + (n + 1))
              then err over_limit
              else ok (record b { rows = b.rows ++ out ∷ []; size = b.size + (n + 1) }))
      ])
    ])

unfoldable pub add_all : Library → Builder → List (List Value) → Result Builder
unfolding add
add_all lib b [] = ok b
add_all lib b (row ∷ rows) = add lib b row >>= λ next. add_all lib next rows

-- The elements two by two.
unfoldable pub pairs : List Value → List (List Value)
pairs [] = []
pairs (a ∷ []) = []
pairs (a ∷ (b ∷ vs)) = (a ∷ b ∷ []) ∷ pairs vs

unfoldable pub singles : List Value → List (List Value)
singles [] = []
singles (v ∷ vs) = (v ∷ []) ∷ singles vs

unfoldable pub keyed : List Bytes → List Value → List (List Value)
keyed [] vs = []
keyed (k ∷ ks) [] = []
keyed (k ∷ ks) (v ∷ vs) = (text k ∷ v ∷ []) ∷ keyed ks vs

unfoldable pub under : Bytes → List Value → List (List Value)
under cursor [] = []
under cursor (v ∷ vs) = (text cursor ∷ v ∷ []) ∷ under cursor vs

-- The names of the columns for a command.
unfoldable pub columns_of : Bytes → List Bytes
unfolding str_eq
columns_of command =
    if str_eq command (codes "MGET")
    then codes "key" ∷ codes "value" ∷ []
    else if str_eq command (codes "HGETALL")
    then codes "field" ∷ codes "value" ∷ []
    else if str_eq command (codes "SCAN")
    then codes "cursor" ∷ codes "key" ∷ []
    else codes "value" ∷ []

is_value : Scan → Bool
is_value (value n) = true
is_value (failed e) = false

-- Whether `strconv.ParseUint` reads a text in base 10 and 64 bits.
unfoldable pub unsigned_64 : Bytes → Bool
unfolding parse_uint is_value
unsigned_64 s = is_value (parse_uint s)

-- The rows that an answer to SCAN stands for.
unfoldable pub scan_rows : List Value → Result (List (List Value))
unfolding unsigned_64 under
scan_rows (text cursor ∷ (array keys ∷ [])) =
    if not (unsigned_64 cursor)
    then err query_failed
    else if ltb 100 (length (to_list keys))
    then err over_limit
    else if length (to_list keys) == 0
    then ok ((text cursor ∷ null ∷ []) ∷ [])
    else ok (under cursor (to_list keys))
scan_rows _ = err query_failed

-- The rows that an answer stands for; `none` is an answer that is no array.
unfoldable pub rows_of :
    Bytes → List Bytes → Value → Option (List Value) → Result (List (List Value))
unfolding str_eq keyed pairs singles scan_rows
rows_of command keys answer none =
    if str_eq command (codes "MGET")
      || str_eq command (codes "HGETALL")
      || str_eq command (codes "LRANGE")
      || str_eq command (codes "ZRANGE")
      || str_eq command (codes "SCAN")
    then err query_failed
    else ok ((answer ∷ []) ∷ [])
rows_of command keys answer (some vs) =
    if str_eq command (codes "MGET")
    then (if length vs == length keys then ok (keyed keys vs) else err query_failed)
    else if str_eq command (codes "HGETALL")
    then (if length vs % 2 == 0 then ok (pairs vs) else err query_failed)
    else if str_eq command (codes "LRANGE") || str_eq command (codes "ZRANGE")
    then (if ltb 100 (length vs) then err over_limit else ok (singles vs))
    else if str_eq command (codes "SCAN")
    then scan_rows vs
    else err query_failed

elements : Value → Option (List Value)
elements null = none
elements (text s) = none
elements (raw s) = none
elements (failure s) = none
elements (number n) = none
elements (array vs) = some (to_list vs)

-- `redisResult`, for the command and its other words.
unfoldable pub redis_result : Library → Bytes → List Bytes → Value → Result Builder
unfolding builder columns_of rows_of elements add_all
redis_result lib command words answer = builder lib (columns_of command) >>= λ b.
    rows_of command words answer (elements answer) >>= λ rows. add_all lib b rows
