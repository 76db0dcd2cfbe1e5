-- ===== src/Companion.antt =====
-- companion/server.go: the server's state, and what its handlers do to it. Each function is a part of
-- a handler that runs under the server's lock; between the two parts of a handler others may run. The
-- channel `work` holds one token, and the model also keeps what its owner does.
pub mod Request
pub mod Steps
pub mod Laws
pub mod Kept
pub mod Once
pub mod Repeat
mod Tests
use le_cli.Prelude.{
  ℕ, zero, suc, ◌+◌, Bytes, codes, Bool, true, false, not, ◌&&◌, ◌||◌, length, List, [], ◌∷◌, ◌++◌,
  Option, none, some, if◌then◌else◌, ltb, leb, ◌==◌, str_eq, within,
}
use le_cli.Prelude.Int.{ℤ, pos, ltb_ℤ, leb_ℤ}
use le_cli.Intel.Profile.{Profile}
use le_cli.Scan.Listener.{Listener}
use le_cli.Prelude.Maps.{Map, lookup, insert, bytes_eq}

abbrev pub max_rows : ℕ
max_rows = 4096

abbrev pub max_receipts : ℕ
max_receipts = 128

-- In seconds.
abbrev pub snapshot_ttl : ℕ
snapshot_ttl = 120

abbrev pub receipt_ttl : ℕ
receipt_ttl = 600

pub record ActionRequest : Type 0 where
  pub request_id : Bytes
  pub snapshot_id : Bytes
  pub target_id : Bytes
  pub operation : Bytes

pub data Outcome : Type 0 where
  unknown refused failed completed : Outcome

pub data State : Type 0 where
  pending : State
  final : Outcome → State

pub record Receipt : Type 0 where
  pub request : ActionRequest
  pub state : State
  pub message : Bytes

pub record CachedReceipt : Type 0 where
  pub receipt : Receipt
  pub expires : ℕ

pub record Row (F : Type 0) : Type 0 where
  pub target_id : Bytes
  pub listener : Listener F
  pub profile : Profile
  pub cpu : Option F
  pub rss : Option ℤ

pub record Snapshot (F : Type 0) : Type 0 where
  pub id : Bytes
  pub expires_at : ℕ
  pub rows : List (Row F)

-- What the owner of the token in `work` does: it is kept until the answer is written.
pub data Worker : Type 0 where
  free collecting answering : Worker
  acting : ActionRequest → Worker

pub record Server (F : Type 0) : Type 0 where
  pub closing : Bool
  pub work : Worker
  pub snapshot : Option (Snapshot F)
  pub receipts : Map Bytes CachedReceipt

-- `NewHandler`
abbrev pub new_handler : {F : Type 0} → Server F
new_handler = record { closing = false; work = free; snapshot = none; receipts = [] }

is_free : Worker → Bool
is_free free = true
is_free collecting = false
is_free answering = false
is_free (acting r) = false

-- `claimWork`, as a test; the caller becomes the owner.
unfoldable pub claims_work : {F : Type 0} → Server F → Bool
unfolding is_free
claims_work s = not s.closing && is_free s.work

hex_id : ℕ → Bytes → Bool
hex_id zero [] = true
hex_id zero (c ∷ s) = false
hex_id (suc n) [] = false
hex_id (suc n) (c ∷ s) = (within b'0' b'9' c || within b'a' b'f' c) && hex_id n s

-- The first check of `serveAction`.
unfoldable pub valid_action : ActionRequest → Bool
unfolding hex_id str_eq
valid_action r =
    hex_id 32 r.request_id
    && hex_id 32 r.snapshot_id
    && hex_id 32 r.target_id
    && (str_eq r.operation (codes "stop") || str_eq r.operation (codes "restartManaged"))

unfoldable pub same_request : ActionRequest → ActionRequest → Bool
unfolding str_eq
same_request a b =
    str_eq a.request_id b.request_id
    && str_eq a.snapshot_id b.snapshot_id
    && str_eq a.target_id b.target_id
    && str_eq a.operation b.operation

unfoldable pub is_final : State → Bool
is_final pending = false
is_final (final o) = true

-- The loop that drops the receipts whose time is over.
unfoldable pub prune : ℕ → Map Bytes CachedReceipt → Map Bytes CachedReceipt
unfolding is_final
prune now [] = []
prune now ((k, c) ∷ m) =
    if is_final c.receipt.state && not (ltb now c.expires)
    then prune now m
    else (k, c) ∷ prune now m

unfoldable pub find_row : {F : Type 0} → Bytes → List (Row F) → Option (Row F)
unfolding str_eq
find_row id [] = none
find_row id (r ∷ rs) = if str_eq r.target_id id then some r else find_row id rs

-- The row that is acted on: it stands in the current snapshot, which is not over.
unfoldable pub target : {F : Type 0} → ℕ → Server F → ActionRequest → Option (Row F)
unfolding find_row str_eq
target now s r = elim s.snapshot [
  | none ↦ none
  | some shot ↦
      (if str_eq shot.id r.snapshot_id && ltb now shot.expires_at
        then find_row r.target_id shot.rows
        else none)
]

-- What the first part of `serveAction` does: it answers with an error, or with a receipt that it
-- has, or goes on to the engine.
pub data Reaction (F : Type 0) : Type 0 where
  rejects : ℕ → Reaction F
  repeats : ℕ → Receipt → Reaction F
  launches : Row F → ActionRequest → Reaction F

-- The answer to a request whose id has a receipt.
unfoldable pub repeat : {F : Type 0} → Receipt → ActionRequest → Reaction F
unfolding same_request is_final
repeat known r =
    if not (same_request known.request r)
    then rejects 409
    else repeats (if is_final known.state then 200 else 202) known

-- The state in which the engine is called.
unfoldable pub launched : {F : Type 0} → ℕ → Server F → ActionRequest → Server F
unfolding insert
launched stamp s r = record s {
  work = acting r;
  snapshot = none;
  receipts =
      insert r.request_id
        (record {
          receipt = record {
            request = r;
            state = pending;
            message = codes "Operation is running.";
          };
          expires = stamp + receipt_ttl;
        })
        s.receipts;
}

-- `serveAction` up to the call of the engine: `pruned`, `checked` and `stamp` are what the clock says
-- when the receipts are pruned, when the snapshot is looked at and when the receipt is made.
unfoldable pub begin_action :
    {F : Type 0} → ℕ → ℕ → ℕ → Server F → ActionRequest → Server F × Reaction F
unfolding valid_action prune lookup repeat claims_work target launched
begin_action {F} pruned checked stamp s r =
    let s' : Server F = record s { receipts = prune pruned s.receipts } in
    if not (valid_action r) then (s, rejects 400) else (elim (lookup r.request_id s'.receipts) [
      | some c ↦ (s', repeat c.receipt r)
      | none ↦
          (if leb max_receipts (length s'.receipts)
            then (s', rejects 429)
            else if not (claims_work s')
            then (s', rejects 429)
            else (elim (target checked s' r) [
              | none ↦ (record s' { work = answering }, rejects 409)
              | some row ↦ (launched stamp s' r, launches row r)
            ]))
    ])
