-- ===== src/Companion/Tests.antt =====
-- companion/server.go: one snapshot, and a request to stop a process of it.
use le_cli.Prelude.{
  ℕ, zero, suc, Bytes, codes, true, false, List, [], ◌∷◌, Option, none, some, ◌≡◌, ◌≢◌, refl, arith,
  All,
}
use le_cli.Prelude.Int.{pos}
use le_cli.Prelude.Maps.{elem, Distinct, bytes_eq}
use le_cli.Intel.Profile.{no_profile}
use le_cli.Scan.Listener.{Listener}
use le_cli.Companion.{ActionRequest, Receipt, pending, repeats, begin_action, valid_action, acting}
use le_cli.Companion.Once.{named, run_once}
use le_cli.Companion.Repeat.{repeated_action}
use le_cli.Companion.Request.{
  HttpRequest, Parsers, whole, serve_http, status, error, IsTrusted, serve_http-IsTrusted,
}
use le_cli.Companion.Steps.{
  Event, snapshot_asked, snapshot_ended, action_asked, action_ended, answered, timer, done,
  Collection, run, started, receipt_of,
}

abbrev node : Listener ℕ
node = record {
  pid = pos 7;
  command = codes "node";
  command_line = codes "node app.js";
  command_line_fallback = false;
  user = codes "al";
  start_time = codes "Mon Jan 5 10:00:00 2026";
  cwd = codes "/srv";
  cpu = 0;
  rss = pos 0;
  addrs = [];
  ports = [];
}

abbrev row_id : Bytes
row_id = codes "0000000000000000000000000000000a"

abbrev shot_id : Bytes
shot_id = codes "0000000000000000000000000000000b"

abbrev drawn : ℕ → Option Bytes
drawn zero = some row_id
drawn (suc i) = some shot_id

abbrev collection : Collection ℕ
collection = record {
  rows = some ((node, no_profile) ∷ []);
  ids = drawn;
  late = false;
  late_at_end = false;
  now = 1000;
  too_large = λ s. false;
  plausible_cpu = λ c. false;
}

abbrev stop_node : ActionRequest
stop_node = record {
  request_id = codes "0000000000000000000000000000000c";
  snapshot_id = shot_id;
  target_id = row_id;
  operation = codes "stop";
}

-- The last request comes while the first one still runs.
abbrev events : List (Event ℕ)
events =
    snapshot_asked
    ∷ snapshot_ended collection
    ∷ answered
    ∷ action_asked 1001 1001 1001 stop_node
    ∷ action_asked 1002 1002 1002 stop_node
    ∷ []

events-Distinct : Distinct (run started events).published
unfolding run elem
events-Distinct = (refl, tt)

run_once_example :
    Distinct (named (run started events).actions)
    × All (λ x. elem x (run started events).published ≡ true) (named (run started events).actions)
run_once_example = run_once events events-Distinct

one_action : (run started events).actions ≡ stop_node ∷ []
unfolding run
one_action = refl

still_acting : (run started events).server.work ≡ acting stop_node
unfolding run
still_acting = refl

stop_node_valid : valid_action stop_node ≡ true
unfolding valid_action
stop_node_valid = refl

-- A new snapshot that is not answered, and another request.
abbrev since : List (Event ℕ)
since = answered ∷ snapshot_asked ∷ timer (codes "x") ∷ action_asked 1008 1008 1008 stop_node ∷ []

repeated_action_example :
    let t = run started events in
    ((known : Receipt) × (known.state ≡ pending)
      × (known.request ≡ stop_node)
      × ((begin_action 1010 1010 1010 t.server stop_node).1 ≡ repeats 202 known))
    × ((begin_action 1010 1010 1010
          (run t (action_ended 1005 (done []) ∷ since)).server
          stop_node).1
        ≡ repeats 200 (receipt_of stop_node (done [])))
repeated_action_example =
    repeated_action events since stop_node 1010 1010 1010 1005 (done []) still_acting
      stop_node_valid (tt, (tt, (tt, (omega arith, tt)))) (omega arith)

abbrev parsers : Parsers
parsers = record {
  loopback = λ s. true;
  media_type = λ s. some s;
  decode_empty = λ s. some false;
  decode_action = λ s. none;
}

abbrev status_request : HttpRequest
status_request = record {
  host = codes "127.0.0.1:1";
  raw_query = [];
  fragment = [];
  remote_addr = codes "127.0.0.1:2";
  method = codes "POST";
  request_uri = codes "/v1/status";
  proto = codes "HTTP/1.1";
  headers = (codes "Authorization", codes "Bearer t" ∷ []) ∷ [];
  authorization = codes "Bearer t";
  content_type = codes "application/json";
  content_length = pos 2;
  path = codes "/v1/status";
  body = whole (codes "{}");
}

status_served : serve_http parsers (codes "127.0.0.1:1") (codes "t") status_request ≡ status
unfolding serve_http
status_served = refl

status_reached :
    (n : ℕ) → serve_http parsers (codes "127.0.0.1:1") (codes "t") status_request ≢ error n
status_reached n h = cc (status_served, h)

serve_http-IsTrusted_example : IsTrusted parsers (codes "127.0.0.1:1") (codes "t") status_request
serve_http-IsTrusted_example =
    serve_http-IsTrusted parsers (codes "127.0.0.1:1") (codes "t") status_request status_reached

no_token : serve_http parsers (codes "127.0.0.1:1") [] status_request ≡ error 401
unfolding serve_http
no_token = refl
