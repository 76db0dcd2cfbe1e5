-- ===== src/Datacenter/Results/Tests.antt =====
-- datacenter/database/query.go and datacenter/database/redis.go: two answers of a server.
use le_cli.Prelude.{◌*◌, Bytes, codes, List, [], ◌∷◌, some, length, ◌≡◌, refl}
use le_cli.Datacenter.Results.{
  ok, err, query_failed, Value, null, text, array, end, item, Library, Builder, columns_of,
  redis_result,
}
use le_cli.Datacenter.Results.Laws.{IsWithin, redis_result-IsWithin}

abbrev library : Library
library = record { empty_length = λ columns. some 200; row_length = λ row. some (30 * length row) }

abbrev mget : List Bytes
mget = codes "a" ∷ codes "b" ∷ []

abbrev answer : Value
answer = array (item (text (codes "x")) (item null end))

abbrev result : Builder
result = record {
  columns = codes "key" ∷ codes "value" ∷ [];
  rows = (text (codes "a") ∷ text (codes "x") ∷ []) ∷ (text (codes "b") ∷ null ∷ []) ∷ [];
  size = 322;
}

answered : redis_result library (codes "MGET") mget answer ≡ ok result
unfolding redis_result
answered = refl

scanned :
    redis_result library (codes "SCAN") [] (array (item (text (codes "7")) (item (array end) end)))
    ≡ ok (record {
      columns = codes "cursor" ∷ codes "key" ∷ [];
      rows = (text (codes "7") ∷ null ∷ []) ∷ [];
      size = 261;
    })
unfolding redis_result
scanned = refl

unanswered : redis_result library (codes "HGETALL") [] (array (item null end)) ≡ err query_failed
unfolding redis_result
unanswered = refl

redis_result-IsWithin_example : IsWithin library (columns_of (codes "MGET")) result
redis_result-IsWithin_example =
    redis_result-IsWithin library (codes "MGET") mget answer result answered
