-- ===== src/Datacenter/Redis.antt =====
-- datacenter/database/redis.go: the commands of Redis that are let through. The decoder of JSON,
-- `strings.ToUpper` and `strings.EqualFold` are parameters.
pub mod Laws
mod Reads
mod Tests
use le_cli.Prelude.{
  ℕ, zero, suc, ◌+◌, ◌*◌, ◌-◌, ◌^◌, Bytes, codes, Bool, true, false, not, ◌&&◌, ◌||◌, length, List,
  [], ◌∷◌, ◌++◌, Option, none, some, if◌then◌else◌, ltb, leb, ◌==◌, str_eq,
}
use le_cli.Prelude.Decimal.{atoi, NumError}
use le_cli.Prelude.Int.{ℤ, pos, negsuc}
use le_cli.Prelude.Runes.{plain}
use le_cli.Datacenter.Results.{
  Result, ok, err, bad_config, max_input, QueryError, unsigned_64, valid_input,
}

-- `decode_strings` gives the first value of a text, if it is a list of texts, and whether anything
-- but white space follows it.
pub record Decoder : Type 0 where
  pub decode_strings : Bytes → Option (List Bytes × Bool)
  pub to_upper : Bytes → Bytes
  pub equal_fold : Bytes → Bytes → Bool

abbrev pub one_of : Bytes → List Bytes → Bool
one_of s [] = false
one_of s (name ∷ names) = str_eq s name || one_of s names

-- What `ParseInt` reads in 32 bits, unless it is negative.
index_of : ℤ × Option NumError → Option ℕ
index_of (pos n, none) = if ltb n (2 ^ 31) then some n else none
index_of (pos n, some e) = none
index_of (negsuc n, e) = none

unfoldable pub index_32 : Bytes → Option ℕ
unfolding atoi index_of
index_32 s = index_of (atoi s)

abbrev pub is_page : Option ℕ → Option ℕ → Bool
is_page none last = false
is_page (some first) none = false
is_page (some first) (some last) = leb first last && ltb (last - first) 100

-- The rule for LRANGE and ZRANGE.
abbrev pub valid_range : List Bytes → Bool
valid_range (key ∷ (first ∷ (last ∷ []))) = is_page (index_32 first) (index_32 last)
valid_range _ = false

-- The rule for SCAN.
count_of : ℤ × Option NumError → Bool
count_of (pos n, none) = leb 1 n && leb n 100
count_of (pos n, some e) = false
count_of (negsuc n, e) = false

unfoldable pub small_count : Bytes → Bool
unfolding atoi count_of
small_count s = count_of (atoi s)

abbrev pub valid_scan : Decoder → List Bytes → Bool
valid_scan d (cursor ∷ (word ∷ (count ∷ []))) =
    d.equal_fold word (codes "COUNT") && (unsigned_64 cursor && small_count count)
valid_scan d _ = false

-- `switch args[0]`: the other words of a command
unfoldable pub valid_command : Decoder → Bytes → List Bytes → Bool
unfolding str_eq
valid_command d name words =
    if one_of name (codes "PING" ∷ codes "DBSIZE" ∷ [])
    then length words == 0
    else if one_of name (codes "GET" ∷ codes "TYPE" ∷ codes "TTL" ∷ codes "HGETALL" ∷ [])
    then length words == 1
    else if str_eq name (codes "HGET")
    then length words == 2
    else if one_of name (codes "MGET" ∷ codes "EXISTS" ∷ [])
    then leb 1 (length words) && leb (length words) 32
    else if one_of name (codes "LRANGE" ∷ codes "ZRANGE" ∷ [])
    then valid_range words
    else if str_eq name (codes "SCAN")
    then valid_scan d words
    else false

abbrev pub all_plain : List Bytes → Bool
all_plain [] = true
all_plain (s ∷ ss) = plain s max_input && all_plain ss

-- `args[2] = "COUNT"`
abbrev pub canonical : Bytes → List Bytes → List Bytes
canonical name (cursor ∷ (word ∷ (count ∷ []))) =
    if str_eq name (codes "SCAN")
    then cursor ∷ codes "COUNT" ∷ count ∷ []
    else cursor ∷ word ∷ count ∷ []
canonical name words = words

-- The checks of the words.
unfoldable pub checked_words : Decoder → List Bytes → Result (List Bytes)
unfolding valid_command plain
checked_words d [] = err bad_config
checked_words d (first ∷ words) =
    let name = d.to_upper first in
    if ltb 33 (length words) || not (all_plain (first ∷ words))
    then err bad_config
    else if valid_command d name words
    then ok (name ∷ canonical name words)
    else err bad_config

unfoldable pub decoded_words : Decoder → Option (List Bytes × Bool) → Result (List Bytes)
unfolding checked_words
decoded_words d none = err bad_config
decoded_words d (some (words, extra)) = if extra then err bad_config else checked_words d words

unfoldable pub accepted_input : Decoder → Bytes → Option QueryError → Result (List Bytes)
unfolding decoded_words
accepted_input d input (some e) = err e
accepted_input d input none = decoded_words d (d.decode_strings input)

-- `redisArgs`
unfoldable pub redis_args : Decoder → Bytes → Result (List Bytes)
unfolding accepted_input valid_input
redis_args d input = accepted_input d input (valid_input input)
