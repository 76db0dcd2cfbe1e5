-- ===== src/Datacenter/Redis/Laws.antt =====
-- datacenter/database/redis.go: the commands that are let through only read.
use le_cli.Prelude.{
  Bytes, codes, Bool, true, false, not, ◌&&◌, ◌||◌, length, List, [], ◌∷◌, Option, none, some,
  if◌then◌else◌, ltb, leb, ◌==◌, ◌≡◌, refl, sym, subst, arith, Bool-cases, inl, inr, str_eq,
  str_eq_iff, and_true,
}
use le_cli.Prelude.Runes.{plain}
use le_cli.Datacenter.Results.{ok, max_input, QueryError, valid_input}
use le_cli.Datacenter.Results.Laws.{Ensures, Ensures-if, Ensures-ok}
use le_cli.Datacenter.Redis.{
  Decoder, one_of, valid_range, valid_scan, valid_command, all_plain, canonical, checked_words,
  decoded_words, accepted_input, redis_args,
}
use le_cli.Datacenter.Redis.Reads.{
  IsOneOf, Reads, of_keys, IsRead, one_of-IsOneOf, passes, alone-Reads, of_key-Reads,
  of_field-Reads, of_range-Reads, of_scan-Reads,
}

canonical_lem :
    (name : Bytes) (words : List Bytes)
    → str_eq name (codes "SCAN") ≡ false
    → canonical name words ≡ words
canonical_lem name [] h = refl
canonical_lem name (a ∷ []) h = refl
canonical_lem name (a ∷ (b ∷ [])) h = refl
canonical_lem name (a ∷ (b ∷ (c ∷ []))) h = rw h refl
canonical_lem name (a ∷ (b ∷ (c ∷ (w ∷ ws)))) h = refl

canonical_plain :
    (name : Bytes) (words : List Bytes)
    → all_plain words ≡ true
    → all_plain (canonical name words) ≡ true
unfolding plain
canonical_plain name [] h = refl
canonical_plain name (a ∷ []) h = h
canonical_plain name (a ∷ (b ∷ [])) h = h
canonical_plain name (a ∷ (b ∷ (c ∷ []))) h = elim (Bool-cases (str_eq name (codes "SCAN"))) [
  | inl e ↦
      let first = and_true (plain a max_input) _ h in
      let second = and_true (plain b max_input) _ first.1 in rw (e, first.0, second.1) refl
  | inr e ↦ rw e h
]
canonical_plain name (a ∷ (b ∷ (c ∷ (w ∷ ws)))) h = h

of_keys-Reads :
    (name : Bytes) (words : List Bytes)
    → IsOneOf name (codes "MGET" ∷ codes "EXISTS" ∷ [])
    → (leb 1 (length words) && leb (length words) 32) ≡ true
    → Reads name words
of_keys-Reads name words m h = of_keys name words m (ground (arith, h)) (ground (arith, h))

unknown_command :
    (d : Decoder) (name : Bytes) (words : List Bytes)
    → str_eq name (codes "SCAN") ≡ false
    → (if str_eq name (codes "SCAN") then valid_scan d words else false) ≡ true
    → Reads name words
unknown_command d name words other h = ground (arith, h, other)

-- Each test is that of `valid_command`.
valid_command-Reads :
    (d : Decoder) (name : Bytes) (words : List Bytes)
    → valid_command d name words ≡ true
    → str_eq name (codes "SCAN") ≡ false
    → Reads name words
unfolding valid_command
valid_command-Reads d name words h other =
    let scan : Bool = if str_eq name (codes "SCAN") then valid_scan d words else false in
    let range : Bool =
      if one_of name (codes "LRANGE" ∷ codes "ZRANGE" ∷ []) then valid_range words else scan in
    let keys : Bool =
      if one_of name (codes "MGET" ∷ codes "EXISTS" ∷ [])
      then leb 1 (length words) && leb (length words) 32
      else range in
    let field : Bool = if str_eq name (codes "HGET") then length words == 2 else keys in
    let key : Bool =
      if one_of name (codes "GET" ∷ codes "TYPE" ∷ codes "TTL" ∷ codes "HGETALL" ∷ [])
      then length words == 1
      else field in
    passes (Reads name words) (one_of name (codes "PING" ∷ codes "DBSIZE" ∷ [])) (length words == 0)
      key h
      (λ e k. alone-Reads name words (one_of-IsOneOf name (codes "PING" ∷ codes "DBSIZE" ∷ []) e) k)
      (λ h.
        passes (Reads name words)
          (one_of name (codes "GET" ∷ codes "TYPE" ∷ codes "TTL" ∷ codes "HGETALL" ∷ []))
          (length words == 1) field h
          (λ e k.
            of_key-Reads name words
              (one_of-IsOneOf name (codes "GET" ∷ codes "TYPE" ∷ codes "TTL" ∷ codes "HGETALL" ∷ [])
                e)
              k)
          (λ h.
            passes (Reads name words) (str_eq name (codes "HGET")) (length words == 2) keys h
              (λ e k.
                subst (λ n. Reads n words) (sym ((str_eq_iff name (codes "HGET")).0 e))
                  (of_field-Reads words k))
              (λ h.
                passes (Reads name words) (one_of name (codes "MGET" ∷ codes "EXISTS" ∷ []))
                  (leb 1 (length words) && leb (length words) 32) range h
                  (λ e k.
                    of_keys-Reads name words
                      (one_of-IsOneOf name (codes "MGET" ∷ codes "EXISTS" ∷ []) e) k)
                  (λ h.
                    passes (Reads name words) (one_of name (codes "LRANGE" ∷ codes "ZRANGE" ∷ []))
                      (valid_range words) scan h
                      (λ e k.
                        of_range-Reads name words
                          (one_of-IsOneOf name (codes "LRANGE" ∷ codes "ZRANGE" ∷ []) e) k)
                      (λ h. unknown_command d name words other h)))))

scan_command-Reads :
    (d : Decoder) (words : List Bytes)
    → valid_command d (codes "SCAN") words ≡ true
    → Reads (codes "SCAN") (canonical (codes "SCAN") words)
unfolding valid_command
scan_command-Reads d words h = of_scan-Reads d words h

command-Reads :
    (d : Decoder) (name : Bytes) (words : List Bytes)
    → valid_command d name words ≡ true
    → Reads name (canonical name words)
command-Reads d name words h = elim (Bool-cases (str_eq name (codes "SCAN"))) [
  | inl e ↦
      subst (λ n. Reads n (canonical n words)) (sym ((str_eq_iff name _).0 e))
        (scan_command-Reads d words
          (subst (λ n. valid_command d n words ≡ true) ((str_eq_iff name _).0 e) h))
  | inr e ↦ rw (canonical_lem name words e) (valid_command-Reads d name words h e)
]

words_plain :
    (d : Decoder) (first : Bytes) (words : List Bytes)
    → (ltb 33 (length words) || not (all_plain (first ∷ words))) ≡ false
    → all_plain words ≡ true
words_plain d first words h = ground (arith, h)

checked_words-IsRead : (d : Decoder) (words : List Bytes) → Ensures IsRead (checked_words d words)
unfolding checked_words
checked_words-IsRead d [] = tt
checked_words-IsRead d (first ∷ words) =
    Ensures-if IsRead (ltb 33 (length words) || not (all_plain (first ∷ words))) _ _ (λ bad. tt)
      (λ good.
        Ensures-if IsRead (valid_command d (d.to_upper first) words) _ _
          (λ h. (
            command-Reads d (d.to_upper first) words h,
            canonical_plain (d.to_upper first) words (words_plain d first words good),
          ))
          (λ h. tt))

decoded_words-IsRead :
    (d : Decoder) (o : Option (List Bytes × Bool)) → Ensures IsRead (decoded_words d o)
unfolding decoded_words
decoded_words-IsRead d none = tt
decoded_words-IsRead d (some (words, true)) = tt
decoded_words-IsRead d (some (words, false)) = checked_words-IsRead d words

accepted_input-IsRead :
    (d : Decoder) (input : Bytes) (o : Option QueryError)
    → Ensures IsRead (accepted_input d input o)
unfolding accepted_input
accepted_input-IsRead d input (some e) = tt
accepted_input-IsRead d input none = decoded_words-IsRead d (d.decode_strings input)

-- Whatever is asked for: the words that `redisArgs` returns are one of twelve commands that only
-- read, with the number of words that it takes and each word plain; a range has at most 100 places,
-- and SCAN asks for COUNT.
pub redis_args-IsRead :
    (d : Decoder) (input : Bytes) (words : List Bytes)
    → redis_args d input ≡ ok words
    → IsRead words
unfolding redis_args
redis_args-IsRead d input words =
    Ensures-ok IsRead (redis_args d input) words (accepted_input-IsRead d input (valid_input input))
