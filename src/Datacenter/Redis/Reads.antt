-- ===== src/Datacenter/Redis/Reads.antt =====
-- datacenter/database/redis.go: the commands that only read, and what each test of a command's words
-- tells.
use le_cli.Prelude.{
  ℕ, ◌+◌, ◌<◌, ◌≤◌, Bytes, codes, Bool, true, false, ◌&&◌, length, List, [], ◌∷◌, Option, none,
  some, if◌then◌else◌, ◌==◌, ◌≡◌, refl, arith, ◌⊎◌, Bool-cases, inl, inr, str_eq, str_eq_iff,
  and_true,
}
use le_cli.Datacenter.Results.{unsigned_64}
use le_cli.Datacenter.Redis.{
  Decoder, one_of, index_32, is_page, valid_range, small_count, valid_scan, all_plain, canonical,
}

abbrev pub IsOneOf : Bytes → List Bytes → Type 0
IsOneOf s [] = ⊥
IsOneOf s (name ∷ names) = (s ≡ name) ⊎ IsOneOf s names

-- The commands that are let through, with their words.
pub data Reads : Bytes → List Bytes → Type 0 where
  alone : (name : Bytes) → IsOneOf name (codes "PING" ∷ codes "DBSIZE" ∷ []) → Reads name []
  of_key :
      (name key : Bytes)
      → IsOneOf name (codes "GET" ∷ codes "TYPE" ∷ codes "TTL" ∷ codes "HGETALL" ∷ [])
      → Reads name (key ∷ [])
  of_field : (key field : Bytes) → Reads (codes "HGET") (key ∷ field ∷ [])
  of_keys :
      (name : Bytes) (keys : List Bytes)
      → IsOneOf name (codes "MGET" ∷ codes "EXISTS" ∷ [])
      → 1 ≤ length keys
      → length keys ≤ 32
      → Reads name keys
  of_range :
      (name key first last : Bytes) (m n : ℕ)
      → IsOneOf name (codes "LRANGE" ∷ codes "ZRANGE" ∷ [])
      → index_32 first ≡ some m
      → index_32 last ≡ some n
      → m ≤ n
      → n < m + 100
      → Reads name (key ∷ first ∷ last ∷ [])
  of_scan :
      (cursor count : Bytes)
      → unsigned_64 cursor ≡ true
      → small_count count ≡ true
      → Reads (codes "SCAN") (cursor ∷ codes "COUNT" ∷ count ∷ [])

-- A command that is let through, all of whose words are plain.
abbrev pub IsRead : List Bytes → Type 0
IsRead [] = ⊥
IsRead (name ∷ words) = Reads name words × (all_plain words ≡ true)

pub one_of-IsOneOf : (s : Bytes) (names : List Bytes) → one_of s names ≡ true → IsOneOf s names
one_of-IsOneOf s [] h = ground (arith, h)
one_of-IsOneOf s (name ∷ names) h = elim (Bool-cases (str_eq s name)) [
  | inl e ↦ inl ((str_eq_iff s name).0 e)
  | inr e ↦ inr (one_of-IsOneOf s names (ground (arith, h, e)))
]

-- A test that branches passes in one of its branches.
pub passes :
    (Q : Type 0) (b x y : Bool)
    → (if b then x else y) ≡ true
    → (b ≡ true → x ≡ true → Q)
    → (y ≡ true → Q)
    → Q
passes Q true x y h f g = f refl h
passes Q false x y h f g = g h

pub alone-Reads :
    (name : Bytes) (words : List Bytes)
    → IsOneOf name (codes "PING" ∷ codes "DBSIZE" ∷ [])
    → (length words == 0) ≡ true
    → Reads name words
alone-Reads name [] m h = alone name m
alone-Reads name (w ∷ ws) m h = ground (arith, h)

pub of_key-Reads :
    (name : Bytes) (words : List Bytes)
    → IsOneOf name (codes "GET" ∷ codes "TYPE" ∷ codes "TTL" ∷ codes "HGETALL" ∷ [])
    → (length words == 1) ≡ true
    → Reads name words
of_key-Reads name [] m h = ground (arith, h)
of_key-Reads name (key ∷ []) m h = of_key name key m
of_key-Reads name (key ∷ (w ∷ ws)) m h = ground (arith, h)

pub of_field-Reads : (words : List Bytes) → (length words == 2) ≡ true → Reads (codes "HGET") words
of_field-Reads [] h = ground (arith, h)
of_field-Reads (key ∷ []) h = ground (arith, h)
of_field-Reads (key ∷ (field ∷ [])) h = of_field key field
of_field-Reads (key ∷ (field ∷ (w ∷ ws))) h = ground (arith, h)

page_lem :
    (name key first last : Bytes) (m n : Option ℕ)
    → IsOneOf name (codes "LRANGE" ∷ codes "ZRANGE" ∷ [])
    → index_32 first ≡ m
    → index_32 last ≡ n
    → is_page m n ≡ true
    → Reads name (key ∷ first ∷ last ∷ [])
page_lem name key first last none n mem e f h = ground (arith, h)
page_lem name key first last (some m) none mem e f h = ground (arith, h)
page_lem name key first last (some m) (some n) mem e f h =
    of_range name key first last m n mem e f (ground (arith, h)) (ground (arith, h))

pub of_range-Reads :
    (name : Bytes) (words : List Bytes)
    → IsOneOf name (codes "LRANGE" ∷ codes "ZRANGE" ∷ [])
    → valid_range words ≡ true
    → Reads name words
of_range-Reads name [] m h = ground (arith, h)
of_range-Reads name (key ∷ []) m h = ground (arith, h)
of_range-Reads name (key ∷ (first ∷ [])) m h = ground (arith, h)
of_range-Reads name (key ∷ (first ∷ (last ∷ []))) m h =
    page_lem name key first last (index_32 first) (index_32 last) m refl refl h
of_range-Reads name (key ∷ (first ∷ (last ∷ (w ∷ ws)))) m h = ground (arith, h)

pub of_scan-Reads :
    (d : Decoder) (words : List Bytes)
    → valid_scan d words ≡ true
    → Reads (codes "SCAN") (canonical (codes "SCAN") words)
unfolding str_eq
of_scan-Reads d [] h = ground (arith, h)
of_scan-Reads d (cursor ∷ []) h = ground (arith, h)
of_scan-Reads d (cursor ∷ (word ∷ [])) h = ground (arith, h)
of_scan-Reads d (cursor ∷ (word ∷ (count ∷ []))) h =
    let parts =
      (and_true _ _
        (and_true (d.equal_fold word (codes "COUNT")) (unsigned_64 cursor && small_count count)
          h).1) in
    of_scan cursor count parts.0 parts.1
of_scan-Reads d (cursor ∷ (word ∷ (count ∷ (w ∷ ws)))) h = ground (arith, h)
