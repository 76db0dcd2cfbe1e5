-- ===== src/Companion/Request.antt =====
-- companion/server.go: which requests reach an operation. `net.SplitHostPort` with `net.ParseIP`,
-- `mime.ParseMediaType` and the decoder of JSON are parameters.
use le_cli.Prelude.{
  ℕ, ◌+◌, Bytes, codes, Bool, true, false, not, ◌||◌, length, List, [], ◌∷◌, ◌++◌, Option, none,
  some, if◌then◌else◌, leb, str_eq, str_eq_iff, is_empty, has_prefix, ◌≡◌, ◌≢◌, refl, arith, ◌==◌,
  sym,
}
use le_cli.Prelude.Int.{ℤ, pos, ltb_ℤ}
use le_cli.Prelude.Letters.{to_lower}
use le_cli.Prelude.Space.{trim_space}
use le_cli.Companion.{ActionRequest}

abbrev pub max_body : ℕ
max_body = 16384

abbrev pub max_headers : ℕ
max_headers = 8192

-- What reading the body gives, with the limit on it.
pub data Body : Type 0 where
  too_large unreadable : Body
  whole : Bytes → Body

pub record HttpRequest : Type 0 where
  pub host : Bytes
  pub raw_query : Bytes
  pub fragment : Bytes
  pub remote_addr : Bytes
  pub method : Bytes
  pub request_uri : Bytes
  pub proto : Bytes
  pub headers : List (Bytes × List Bytes)
  pub authorization : Bytes
  pub content_type : Bytes
  pub content_length : ℤ
  pub path : Bytes
  pub body : Body

-- What is asked of the libraries; the decoders tell whether anything stands behind the value.
pub record Parsers : Type 0 where
  pub loopback : Bytes → Bool
  pub media_type : Bytes → Option Bytes
  pub decode_empty : Bytes → Option Bool
  pub decode_action : Bytes → Option (ActionRequest × Bool)

-- What a header adds to the size.
header_size : Bytes → List Bytes → ℕ
header_size name [] = 0
header_size name (v ∷ vs) = length name + length v + 4 + header_size name vs

headers_size : List (Bytes × List Bytes) → ℕ
unfolding header_size
headers_size [] = 0
headers_size ((name, vs) ∷ hs) = header_size name vs + headers_size hs

-- A header that only a browser sends.
unfoldable pub from_browser : Bytes → Bool
unfolding to_lower str_eq has_prefix
from_browser name =
    str_eq (to_lower name) (codes "origin") || has_prefix (to_lower name) (codes "sec-fetch-")

any_browser : List (Bytes × List Bytes) → Bool
unfolding from_browser
any_browser [] = false
any_browser ((name, vs) ∷ hs) = from_browser name || any_browser hs

-- `allowedRequest`
unfoldable pub allowed_request : Parsers → Bytes → HttpRequest → Bool
unfolding headers_size any_browser str_eq
allowed_request p host r =
    if not (str_eq r.host host) || not (is_empty r.raw_query) || not (is_empty r.fragment)
    then false
    else if not (p.loopback r.remote_addr)
    then false
    else if any_browser r.headers
    then false
    else leb
        (length r.method
          + length r.request_uri
          + length r.proto
          + length r.host
          + 16
          + headers_size r.headers)
        max_headers

-- What `ServeHTTP` does: the status of an error, or the operation that it calls.
pub data Route : Type 0 where
  error : ℕ → Route
  status snapshot : Route
  action : ActionRequest → Route

starts_object : Bytes → Bool
starts_object [] = false
starts_object (c ∷ []) = false
starts_object (c ∷ (d ∷ s)) = c == b'{'

-- `decodeBody`, with what the decoder makes of the text.
unfoldable pub decode_body : {A : Type 0} → (Bytes → Option (A × Bool)) → (A → Route) → Body → Route
unfolding starts_object trim_space
decode_body decode use_it too_large = error 413
decode_body decode use_it unreadable = error 400
decode_body decode use_it (whole text) =
    let decoded : Route = elim (decode text) [
      | none ↦ error 400
      | some (a, extra) ↦ (if extra then error 400 else use_it a)
    ] in
    if starts_object (trim_space text) then decoded else error 400

empty_value : Option Bool → Option (Unit {0} × Bool)
empty_value none = none
empty_value (some extra) = some (tt, extra)

is_json : Option Bytes → Bool
unfolding str_eq
is_json none = false
is_json (some m) = str_eq m (codes "application/json")

-- The switch on the path.
unfoldable pub dispatch : Parsers → HttpRequest → Route
unfolding decode_body empty_value str_eq
dispatch p r =
    let object : Route → Route =
      λ done. decode_body (λ s. empty_value (p.decode_empty s)) (λ x. done) r.body in
    if str_eq r.path (codes "/v1/status")
    then object status
    else if str_eq r.path (codes "/v1/snapshot")
    then object snapshot
    else if str_eq r.path (codes "/v1/action")
    then decode_body p.decode_action action r.body
    else error 404

-- `ServeHTTP`
unfoldable pub serve_http : Parsers → Bytes → Bytes → HttpRequest → Route
unfolding allowed_request dispatch is_json str_eq
serve_http p host token r =
    if not (allowed_request p host r)
    then error 403
    else if length token == 0 || not (str_eq (codes "Bearer " ++ token) r.authorization)
    then error 401
    else if not (str_eq r.method (codes "POST"))
    then error 405
    else if not (is_json (p.media_type r.content_type))
    then error 415
    else if ltb_ℤ (pos max_body) r.content_length
    then error 413
    else dispatch p r

-- No header of a browser.
abbrev pub NoBrowser : List (Bytes × List Bytes) → Type 0
NoBrowser [] = Unit
NoBrowser ((name, vs) ∷ hs) = (from_browser name ≡ false) × NoBrowser hs

or_false : (a b : Bool) → (a || b) ≡ false → (a ≡ false) × (b ≡ false)
or_false a b h = ground arith

holds_of_negation : (b : Bool) → not b ≡ false → b ≡ true
holds_of_negation b h = ground arith

some_bytes : (s : Bytes) → (length s == 0) ≡ false → s ≢ []
some_bytes [] h e = cc
some_bytes (c ∷ s) h e = cc

gate :
    (b : Bool) (n : ℕ) (x : Route)
    → ((k : ℕ) → (if b then error n else x) ≢ error k)
    → (b ≡ false) × ((k : ℕ) → x ≢ error k)
gate true n x h = absurd (h n refl)
gate false n x h = (refl, h)

any_browser-NoBrowser : (hs : List (Bytes × List Bytes)) → any_browser hs ≡ false → NoBrowser hs
unfolding any_browser
any_browser-NoBrowser [] h = tt
any_browser-NoBrowser ((name, vs) ∷ hs) h =
    let (a, b) = or_false (from_browser name) (any_browser hs) h in (a, any_browser-NoBrowser hs b)

-- What a request has that reaches an operation.
pub record IsTrusted (p : Parsers) (host token : Bytes) (r : HttpRequest) : Type 0 where
  pub to_us : r.host ≡ host
  pub local : p.loopback r.remote_addr ≡ true
  pub no_browser : NoBrowser r.headers
  pub secret : token ≢ []
  pub authorized : r.authorization ≡ codes "Bearer " ++ token
  pub posted : r.method ≡ codes "POST"
  pub small : ltb_ℤ (pos max_body) r.content_length ≡ false

allowed_facts :
    (p : Parsers) (host : Bytes) (r : HttpRequest)
    → allowed_request p host r ≡ true
    → (str_eq r.host host ≡ true)
      × (p.loopback r.remote_addr ≡ true)
      × (any_browser r.headers ≡ false)
unfolding allowed_request
allowed_facts p host r h = ground (arith, h)

-- A request that reaches an operation comes from a loopback address, to the very host that the server
-- listens on, by POST, with no header of a browser, with the token of the server, which is not empty,
-- and announces a body of at most 16 KiB.
pub serve_http-IsTrusted :
    (p : Parsers) (host token : Bytes) (r : HttpRequest)
    → ((n : ℕ) → serve_http p host token r ≢ error n)
    → IsTrusted p host token r
unfolding serve_http
serve_http-IsTrusted p host token r reached =
    let (allowed, h₁) = gate (not (allowed_request p host r)) 403 _ reached in
    let (known, h₂) =
      gate (length token == 0 || not (str_eq (codes "Bearer " ++ token) r.authorization)) 401 _
        h₁ in
    let (posted, h₃) = gate (not (str_eq r.method (codes "POST"))) 405 _ h₂ in
    let (typed, h₄) = gate (not (is_json (p.media_type r.content_type))) 415 _ h₃ in
    let (small, h₅) = gate (ltb_ℤ (pos max_body) r.content_length) 413 _ h₄ in
    let (there, secret) = or_false (length token == 0) _ known in
    let (to_us, loopback, headers) = allowed_facts p host r (holds_of_negation _ allowed) in
    record {
      to_us = (str_eq_iff r.host host).0 to_us;
      local = loopback;
      no_browser = any_browser-NoBrowser r.headers headers;
      secret = some_bytes token there;
      authorized =
          sym (
            (str_eq_iff (codes "Bearer " ++ token) r.authorization).0 (holds_of_negation _ secret));
      posted = (str_eq_iff r.method (codes "POST")).0 (holds_of_negation _ posted);
      small = small;
    }
