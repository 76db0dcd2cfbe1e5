-- ===== src/ReadApi.antt =====
-- internal/readapi/client.go: a JSON client that reads within a budget. `url.Parse`, `net.ParseIP`,
-- `net.LookupPort`, `json.Unmarshal` and what a request gives are parameters.
pub mod Laws
mod Tests
use le_cli.Prelude.{
  ℕ, zero, suc, ◌+◌, Bytes, codes, Bool, true, false, not, ◌&&◌, ◌||◌, length, take, List, [], ◌∷◌,
  ◌++◌, Option, none, some, if◌then◌else◌, ltb, ◌==◌, str_eq, is_empty, has_prefix, contains_byte,
  split, within,
}
use le_cli.Prelude.Int.{ℤ, pos, sub_ℕ, pos_part, leb_ℤ, ltb_ℤ}
use le_cli.Prelude.Utf8.{valid_string}
use le_cli.Tools.Text.Json.{too_deep}

-- `ErrConfig`, `ErrLimit`, `ErrResponse`, the two errors without a name, and those of the context.
pub data ApiError : Type 0 where
  bad_config over_limit bad_response request_failed bad_status cancelled timed_out : ApiError

-- What `url.Parse` gives.
pub record Url : Type 0 where
  pub scheme : Bytes
  pub opaque : Bytes
  pub user : Bool
  pub host : Bytes
  pub hostname : Bytes
  pub port : Bytes
  pub path : Bytes
  pub raw_query : Bytes
  pub force_query : Bool
  pub fragment : Bytes
  pub raw_fragment : Bytes

pub record Names : Type 0 where
  pub parse : Bytes → Option Url
  pub loopback : Bytes → Option Bool
  pub known_port : Bytes → Bool

abbrev pub body_budget : ℕ
body_budget = 1048576

pub record Client : Type 0 where
  pub base : Url
  pub auth : Bytes
  pub closed : Bool
  pub remaining : ℤ

has_any : Bytes → Bytes → Bool
unfolding contains_byte
has_any set [] = false
has_any set (c ∷ s) = contains_byte c set || has_any set s

has_dots : List Bytes → Bool
unfolding str_eq
has_dots [] = false
has_dots (s ∷ ss) = str_eq s (codes ".") || str_eq s (codes "..") || has_dots ss

-- `safePath`
unfoldable pub safe_path : Bytes → Bool
unfolding has_any has_dots split
safe_path p = not (has_any (92 ∷ 0 ∷ 13 ∷ 10 ∷ []) p) && not (has_dots (split b'/' p))

-- The bytes of a header; a character beyond ASCII is refused as its bytes are.
header_bytes : Bytes → Bool
header_bytes [] = true
header_bytes (c ∷ s) = within 32 126 c && header_bytes s

trim_right : ℕ → Bytes → Bytes
trim_right b [] = []
trim_right b (c ∷ s) = let rest = trim_right b s in if is_empty rest && c == b then [] else c ∷ rest

-- HTTPS, or HTTP to a literal loopback address.
trusted : Names → Url → Bool
unfolding str_eq
trusted names u =
    str_eq u.scheme (codes "https")
    || str_eq u.scheme (codes "http")
      && elim (names.loopback u.hostname) [ none ↦ false | some b ↦ b ]

-- The address alone, with nothing but a path behind it.
bare : Url → Bool
bare u =
    is_empty u.opaque
    && not (is_empty u.host)
    && not (is_empty u.hostname)
    && not u.user
    && is_empty u.raw_query
    && not u.force_query
    && is_empty u.fragment
    && is_empty u.raw_fragment

at_root : Url → Bool
unfolding str_eq
at_root u = is_empty u.path || str_eq u.path (codes "/")

-- The checks of `New`.
acceptable : Names → Bytes → Bool → Url → Bool
unfolding bare trusted safe_path at_root header_bytes contains_byte
acceptable names auth root_only u =
    bare u
    && trusted names u
    && not (contains_byte b'%' u.hostname || not (safe_path u.path) || root_only && not (at_root u))
    && (is_empty u.port || names.known_port u.port)
    && not (ltb 4096 (length auth))
    && header_bytes auth

fresh : Url → Bytes → Client
unfolding trim_right
fresh u auth = record {
  base = record u { path = trim_right b'/' u.path };
  auth = auth;
  closed = false;
  remaining = pos body_budget;
}

-- `New`
pub new_client : Names → Bytes → Bytes → Bool → Option Client
new_client names base_url auth root_only = elim (names.parse base_url) [
  | none ↦ none
  | some u ↦ (if acceptable names auth root_only u then some (fresh u auth) else none)
]

-- What making the request and `http.Do` give: an error, or the encoding, the status, the body and whether reading the body
-- ends with an error.
pub data Reply : Type 0 where
  no_reply : ApiError → Reply
  reply : Bytes → ℕ → Bytes → Option ApiError → Reply

-- Whether the path may be asked for.
unfoldable pub good_path : Names → Bytes → Bool
unfolding has_prefix safe_path
good_path names path = elim (names.parse path) [
  | none ↦ false
  | some p ↦
      has_prefix path (codes "/")
      && not (has_prefix path (codes "//"))
      && is_empty p.scheme
      && is_empty p.host
      && is_empty p.raw_query
      && not p.force_query
      && is_empty p.fragment
      && safe_path p.path
]

pub data Outcome (A : Type 0) : Type 0 where
  value : A → Outcome A
  error : ApiError → Outcome A

-- `boundedDepth`, the same loop as the first one of `prettyTextJSON`
unfoldable pub bounded_depth : Bytes → Bool
unfolding too_deep
bounded_depth body = not (too_deep (pos 0) false false body)

-- What is made of a body that was read within the budget.
unfoldable pub decoded : {A : Type 0} → (Bytes → Option A) → ℕ → Bytes → Option ApiError → Outcome A
unfolding bounded_depth valid_string
decoded unmarshal status body (some e) = error e
decoded unmarshal status body none =
    if not (status == 200)
    then error bad_status
    else if not (bounded_depth body)
    then error over_limit
    else if not (valid_string body)
    then error bad_response
    else (elim (unmarshal body) [ none ↦ error bad_response | some a ↦ value a ])

-- The response; `identity` tells that no encoding but the plain one is named.
unfoldable pub received :
    {A : Type 0} → (Bytes → Option A) → (Bytes → Bool) → Client → Reply → Client × Outcome A
unfolding decoded
received unmarshal identity c (no_reply e) = (c, error e)
received unmarshal identity c (reply encoding status body failure) =
    let data_read = take (pos_part c.remaining + 1) body in
    let left = sub_ℕ (pos_part c.remaining) (length data_read) in
    if not (is_empty encoding) && not (identity encoding)
    then (c, error bad_response)
    else if ltb_ℤ left (pos 0)
    then (record c { remaining = left }, error over_limit)
    else (record c { remaining = left }, decoded unmarshal status data_read failure)

-- `GetJSON`; `waiting` is the error of the context, if it ends while another call runs, and `request`
-- what is asked for a path.
unfoldable pub get_json :
    {A : Type 0}
    → Names
    → (Bytes → Option A)
    → (Bytes → Bool)
    → Client
    → Option ApiError
    → Bytes
    → Reply
    → Client × Outcome A
unfolding received good_path
get_json names unmarshal identity c (some e) path answer = (c, error e)
get_json names unmarshal identity c none path answer =
    if c.closed
    then (c, error bad_config)
    else if leb_ℤ c.remaining (pos 0)
    then (c, error over_limit)
    else if not (good_path names path)
    then (c, error bad_config)
    else received unmarshal identity c answer

-- `Close`
unfoldable pub close : Client → Client
close c = record c { closed = true }
