-- ===== src/Companion/Steps.antt =====
-- companion/server.go: the other parts of the handlers, and runs of the server. `rand.Read`, the test
-- of a processor share on `float64` and the length of an encoded snapshot are parameters.
use le_cli.Prelude.{
  ℕ, suc, ◌+◌, Bytes, codes, Bool, true, ◌&&◌, length, List, [], ◌∷◌, Option, none, some,
  if◌then◌else◌, ltb, str_eq,
}
use le_cli.Prelude.Int.{pos, ltb_ℤ, leb_ℤ}
use le_cli.Prelude.Maps.{insert, bytes_eq}
use le_cli.Intel.Profile.{Profile}
use le_cli.Scan.Listener.{Listener}
use le_cli.Companion.{
  ActionRequest, unknown, refused, failed, completed, final, Receipt, Row, Snapshot, Server, free,
  collecting, answering, acting, Reaction, rejects, repeats, launches, begin_action, claims_work,
  max_rows, snapshot_ttl, receipt_ttl, new_handler,
}

-- How the call of the engine ended: the context was over or the output was cut, it refused, another
-- error, or a message.
pub data Ended : Type 0 where
  interrupted declined broken : Ended
  done : Bytes → Ended

-- `boundedMessage`
unfoldable pub bounded_message : Bytes → Bytes
bounded_message s =
    if ltb 512 (length s)
    then codes "Operation returned successfully; refresh to inspect current state."
    else s

-- The receipt that a call leaves.
unfoldable pub receipt_of : ActionRequest → Ended → Receipt
unfolding bounded_message
receipt_of r interrupted = record {
  request = r;
  state = final unknown;
  message = codes "Operation outcome is unknown; refresh before any further action.";
}
receipt_of r declined = record {
  request = r;
  state = final refused;
  message = codes "Identity or action safety could not be verified; refresh.";
}
receipt_of r broken = record {
  request = r;
  state = final failed;
  message = codes "Operation failed; refresh to inspect current state.";
}
receipt_of r (done message) = record {
  request = r;
  state = final completed;
  message = bounded_message message;
}

-- `serveAction` behind the call of the engine, for the request that it was made for; the token is kept
-- while the answer is written.
unfoldable pub end_action : {F : Type 0} → ℕ → Ended → ActionRequest → Server F → Server F
unfolding insert receipt_of
end_action now ended r s = record s {
  work = answering;
  receipts =
      insert r.request_id (record { receipt = receipt_of r ended; expires = now + receipt_ttl })
        s.receipts;
}

-- `serveSnapshot` up to the call of the engine; 429 is answered if the token is taken.
unfoldable pub begin_snapshot : {F : Type 0} → Server F → Server F × Option ℕ
unfolding claims_work
begin_snapshot s =
    if claims_work s then (record s { work = collecting; snapshot = none }, none) else (s, some 429)

-- What `serveSnapshot` gets: the engine's rows or its error, the random ids in the order in which they
-- are drawn, whether the context is over behind the engine and at the end, the time, and what the
-- encoder says of the snapshot.
pub record Collection (F : Type 0) : Type 0 where
  pub rows : Option (List (Listener F × Profile))
  pub ids : ℕ → Option Bytes
  pub late : Bool
  pub late_at_end : Bool
  pub now : ℕ
  pub too_large : Snapshot F → Bool
  pub plausible_cpu : F → Bool

-- `MaxRSSKiB`
abbrev max_rss_kib : ℕ
max_rss_kib = 9007199254740991

-- The fields of a row that are set, and its id; none if no random bytes are left.
unfoldable pub numbered :
    {F : Type 0} → Collection F → ℕ → List (Listener F × Profile) → Option (List (Row F))
numbered c i [] = some []
numbered c i ((l, profile) ∷ ls) =
    let rest = numbered c (suc i) ls in
    elim (c.ids i) [
      | none ↦ none
      | some id ↦ (elim rest [
        | none ↦ none
        | some rows ↦ some (
            record {
              target_id = id;
              listener = l;
              profile = profile;
              cpu = if c.plausible_cpu l.cpu then some l.cpu else none;
              rss =
                  if ltb_ℤ (pos 0) l.rss && leb_ℤ l.rss (pos max_rss_kib) then some l.rss else none;
            }
            ∷ rows)
      ])
    ]

-- The snapshot that is published, or the status of the error.
pub data Collected (F : Type 0) : Type 0 where
  published : Snapshot F → Collected F
  error_status : ℕ → Collected F

unfoldable pub collect : {F : Type 0} → Collection F → Collected F
unfolding numbered
collect {F} c =
    let finish : List (Row F) → Bytes → Collected F = λ rows id.
      let shot : Snapshot F = record { id = id; expires_at = c.now + snapshot_ttl; rows = rows } in
      if c.too_large shot
      then error_status 500
      else if c.late_at_end
      then error_status 504
      else published shot in
    if c.late then error_status 504 else (elim c.rows [
      | none ↦ error_status 500
      | some ls ↦
          (if ltb max_rows (length ls) then error_status 500 else (elim (numbered c 0 ls) [
            | none ↦ error_status 500
            | some rows ↦ (elim (c.ids (length ls)) [
              | none ↦ error_status 500
              | some id ↦ finish rows id
            ])
          ]))
    ])

-- `serveSnapshot` behind the call of the engine; the token is kept while the answer is written.
unfoldable pub end_snapshot : {F : Type 0} → Collected F → Server F → Server F
end_snapshot (published shot) s = record s { work = answering; snapshot = some shot }
end_snapshot (error_status n) s = record s { work = answering }

-- The deferred release of the token, when the answer is written.
unfoldable pub release : {F : Type 0} → Server F → Server F
release s = elim s.work [
  | free ↦ s
  | collecting ↦ s
  | answering ↦ record s { work = free }
  | acting r ↦ s
]

-- The timer of a snapshot: it clears that one, if it is still there; ids stand for pointers.
unfoldable pub expire : {F : Type 0} → Bytes → Server F → Server F
unfolding str_eq
expire id s = elim s.snapshot [
  | none ↦ s
  | some shot ↦ (if str_eq shot.id id then record s { snapshot = none } else s)
]

-- `stopAndWait`: from then on no work starts; when the token is free, the snapshot goes.
unfoldable pub stop : {F : Type 0} → Server F → Server F
stop s = record s { closing = true }

unfoldable pub stopped : {F : Type 0} → Server F → Server F
stopped s = record s { snapshot = none }

-- What may happen next. A part of a handler behind a call of the engine runs only for the owner of the
-- token.
pub data Event (F : Type 0) : Type 0 where
  action_asked : ℕ → ℕ → ℕ → ActionRequest → Event F
  action_ended : ℕ → Ended → Event F
  snapshot_asked : Event F
  snapshot_ended : Collection F → Event F
  answered : Event F
  timer : Bytes → Event F
  stop_asked : Event F
  stop_ended : Event F

-- The server, the ids of the snapshots that it has published, and the requests with which it has
-- called the engine, the newest first.
pub record Run (F : Type 0) : Type 0 where
  pub server : Server F
  pub published : List Bytes
  pub actions : List ActionRequest

unfoldable pub react : {F : Type 0} → Run F → Server F → Reaction F → Run F
react t s (rejects n) = record t { server = s }
react t s (repeats n known) = record t { server = s }
react t s (launches row r) = record t { server = s; actions = r ∷ t.actions }

unfoldable pub publish : {F : Type 0} → Run F → Collected F → Run F
unfolding end_snapshot
publish t (error_status n) = record t { server = end_snapshot (error_status n) t.server }
publish t (published shot) = record t {
  server = end_snapshot (published shot) t.server;
  published = shot.id ∷ t.published;
}

unfoldable pub step : {F : Type 0} → Run F → Event F → Run F
unfolding begin_action react begin_snapshot collect publish end_action release expire stop stopped
step t (action_asked pruned checked stamp r) =
    let (s, reaction) = begin_action pruned checked stamp t.server r in react t s reaction
step t (action_ended now ended) = elim t.server.work [
  | free ↦ t
  | collecting ↦ t
  | answering ↦ t
  | acting r ↦ record t { server = end_action now ended r t.server }
]
step t snapshot_asked = record t { server = (begin_snapshot t.server).0 }
step t (snapshot_ended c) = elim t.server.work [
  | free ↦ t
  | collecting ↦ publish t (collect c)
  | answering ↦ t
  | acting r ↦ t
]
step t answered = record t { server = release t.server }
step t (timer id) = record t { server = expire id t.server }
step t stop_asked = record t { server = stop t.server }
step t stop_ended = elim t.server.work [
  | free ↦ (if t.server.closing then record t { server = stopped t.server } else t)
  | collecting ↦ t
  | answering ↦ t
  | acting r ↦ t
]

unfoldable pub run : {F : Type 0} → Run F → List (Event F) → Run F
unfolding step
run t [] = t
run t (e ∷ es) = run (step t e) es

abbrev pub started : {F : Type 0} → Run F
started = record { server = new_handler; published = []; actions = [] }
