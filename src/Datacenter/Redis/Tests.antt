-- ===== src/Datacenter/Redis/Tests.antt =====
-- datacenter/database/redis.go: a command that is let through, and one that is not.
use le_cli.Prelude.{Bytes, codes, false, List, [], ◌∷◌, some, ◌≡◌, refl, str_eq}
use le_cli.Datacenter.Results.{ok, err, bad_config}
use le_cli.Datacenter.Redis.{Decoder, redis_args, index_32}
use le_cli.Datacenter.Redis.Reads.{IsRead}
use le_cli.Datacenter.Redis.Laws.{redis_args-IsRead}

abbrev decoder : List Bytes → Decoder
decoder words = record {
  decode_strings = λ input. some (words, false);
  to_upper = λ s. s;
  equal_fold = λ a b. str_eq a b;
}

abbrev range_words : List Bytes
range_words = codes "LRANGE" ∷ codes "jobs" ∷ codes "0" ∷ codes "99" ∷ []

let_through : redis_args (decoder range_words) (codes "[]") ≡ ok range_words
unfolding redis_args index_32
let_through = refl

too_many :
    redis_args (decoder (codes "LRANGE" ∷ codes "jobs" ∷ codes "0" ∷ codes "100" ∷ [])) (codes "[]")
    ≡ err bad_config
unfolding redis_args index_32
too_many = refl

not_read : redis_args (decoder (codes "DEL" ∷ codes "jobs" ∷ [])) (codes "[]") ≡ err bad_config
unfolding redis_args
not_read = refl

redis_args-IsRead_example : IsRead range_words
redis_args-IsRead_example =
    redis_args-IsRead (decoder range_words) (codes "[]") range_words let_through
