-- ===== src/ReadApi/Tests.antt =====
-- internal/readapi/client.go with short bodies.
use le_cli.Prelude.{
  Bytes, codes, true, false, length, List, [], ◌∷◌, Option, none, some, ◌≡◌, ◌≤◌, refl, arith,
  if◌then◌else◌, ◌==◌,
}
use le_cli.Prelude.Int.{pos}
use le_cli.ReadApi.{
  Names, Url, Client, Reply, reply, new_client, fresh, acceptable, get_json, value, over_limit,
  error, body_budget,
}
use le_cli.ReadApi.Laws.{Call, IsSmall, given_by, given_by-bounded}

abbrev local_url : Bytes → Url
local_url path = record {
  scheme = codes "http";
  opaque = [];
  user = false;
  host = codes "127.0.0.1:9090";
  hostname = codes "127.0.0.1";
  port = codes "9090";
  path = path;
  raw_query = [];
  force_query = false;
  fragment = [];
  raw_fragment = [];
}

abbrev relative : Bytes → Url
relative path = record (local_url path) { scheme = []; host = []; hostname = []; port = [] }

abbrev parse_url : Bytes → Option Url
parse_url [] = none
parse_url (c ∷ s) = if c == b'/' then some (relative (c ∷ s)) else some (local_url [])

abbrev names : Names
names = record { parse = parse_url; loopback = λ s. some true; known_port = λ s. true }

abbrev unmarshal : Bytes → Option Bytes
unmarshal s = some s

abbrev local_client : Client
local_client = record {
  base = local_url [];
  auth = codes "Bearer t";
  closed = false;
  remaining = pos body_budget;
}

local_client_made :
    new_client names (codes "http://127.0.0.1:9090") (codes "Bearer t") false ≡ some local_client
unfolding new_client acceptable fresh
local_client_made = refl

abbrev empty_list : Reply
empty_list = reply [] 200 (codes "[]") none

abbrev two_calls : List Call
two_calls = (none, codes "/a", empty_list) ∷ (none, codes "/b", empty_list) ∷ []

unmarshal-IsSmall : IsSmall (λ (s : Bytes). length s) unmarshal
unmarshal-IsSmall s a e = ground (arith, e)

given_by-bounded_example :
    given_by (λ (s : Bytes). length s) unmarshal names (λ s. false) local_client two_calls
    ≤ body_budget
given_by-bounded_example =
    given_by-bounded (λ (s : Bytes). length s) unmarshal names (λ s. false) unmarshal-IsSmall
      (codes "http://127.0.0.1:9090") (codes "Bearer t") false local_client two_calls
      local_client_made

first_call :
    (get_json names unmarshal (λ s. false) local_client none (codes "/a") empty_list).1
    ≡ value (codes "[]")
unfolding get_json
first_call = refl

spent :
    (get_json names unmarshal
      (λ s. false)
      (record local_client { remaining = pos 1 })
      none
      (codes "/a")
      empty_list).1
    ≡ error over_limit
unfolding get_json
spent = refl
