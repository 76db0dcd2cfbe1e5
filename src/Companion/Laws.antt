-- ===== src/Companion/Laws.antt =====
-- companion/server.go: what holds however the parts of the handlers follow one another.
use le_cli.Prelude.{
  ℕ, suc, ◌≤◌, Bytes, true, false, not, ◌&&◌, length, [], ◌∷◌, none, some, ltb, leb, ◌≡◌, refl, ap,
  ◌∙◌, arith, Bool-cases, Option-cases, inl, inr,
}
use le_cli.Prelude.Int.{leb-false}
use le_cli.Prelude.Maps.{Map, lookup, insert, lookup-insert_self, bytes_eq}
use le_cli.Companion.{
  ActionRequest, pending, Receipt, CachedReceipt, Row, Server, Worker, free, collecting, answering,
  acting, Reaction, rejects, repeats, launches, begin_action, valid_action, prune, repeat,
  claims_work, target, launched, max_receipts, same_request, is_final,
}

length-prune : (now : ℕ) (m : Map Bytes CachedReceipt) → length (prune now m) ≤ length m
unfolding prune
length-prune now [] = omega arith
length-prune now ((k, c) ∷ m) = ground (arith, length-prune now m)

-- A receipt that is pending, or whose time is not over, is not dropped.
pub lookup-prune :
    (now : ℕ) (k : Bytes) (m : Map Bytes CachedReceipt) (c : CachedReceipt)
    → lookup k m ≡ some c
    → (is_final c.receipt.state && not (ltb now c.expires)) ≡ false
    → lookup k (prune now m) ≡ some c
unfolding prune lookup
lookup-prune now k [] c h p = cc
lookup-prune now k ((j, d) ∷ m) c h p = elim (Bool-cases (bytes_eq.same j k)) [
  | inl e ↦
      let same : d ≡ c = ground (arith, e) in
      let kept : (is_final d.receipt.state && not (ltb now d.expires)) ≡ false =
        ap (λ (x : CachedReceipt). is_final x.receipt.state && not (ltb now x.expires)) same ∙ p in
      ground (arith, e, kept, same)
  | inr e ↦ ground (arith, e, lookup-prune now k m c (rw e at h) p)
]

pub pending_stays :
    (now : ℕ) (c : CachedReceipt)
    → c.receipt.state ≡ pending
    → (is_final c.receipt.state && not (ltb now c.expires)) ≡ false
unfolding is_final
pending_stays now c p = ap (λ x. is_final x && not (ltb now c.expires)) p

pub length-insert_old :
    (k : Bytes) (v c : CachedReceipt) (m : Map Bytes CachedReceipt)
    → lookup k m ≡ some c
    → length (insert k v m) ≡ length m
unfolding lookup insert
length-insert_old k v c [] h = cc
length-insert_old k v c ((j, d) ∷ m) h = elim (Bool-cases (bytes_eq.same j k)) [
  | inl e ↦ rw e refl
  | inr e ↦ rw e (ap suc (length-insert_old k v c m (rw e at h)))
]

length-insert :
    (k : Bytes) (v : CachedReceipt) (m : Map Bytes CachedReceipt)
    → length (insert k v m) ≤ suc (length m)
unfolding insert
length-insert k v [] = omega arith
length-insert k v ((j, d) ∷ m) = ground (arith, length-insert k v m)

-- The receipt of the action that runs.
abbrev pub Running : Map Bytes CachedReceipt → ActionRequest → Type 0
Running m r =
    (c : CachedReceipt) × (lookup r.request_id m ≡ some c)
    × (c.receipt.state ≡ pending)
    × (c.receipt.request ≡ r)

abbrev pub HasReceipt : Map Bytes CachedReceipt → Worker → Type 0
HasReceipt m free = Unit
HasReceipt m collecting = Unit
HasReceipt m answering = Unit
HasReceipt m (acting r) = Running m r

-- There is room for every receipt, and the action that runs has a pending one.
pub record IsTracked {F : Type 0} (s : Server F) : Type 0 where
  pub bounded : length s.receipts ≤ max_receipts
  pub running : HasReceipt s.receipts s.work

HasReceipt-prune :
    (now : ℕ) (m : Map Bytes CachedReceipt) (w : Worker)
    → HasReceipt m w
    → HasReceipt (prune now m) w
HasReceipt-prune now m free h = tt
HasReceipt-prune now m collecting h = tt
HasReceipt-prune now m answering h = tt
HasReceipt-prune now m (acting r) (c, at, p, same) =
    (c, lookup-prune now r.request_id m c at (pending_stays now c p), p, same)

pub prune-IsTracked :
    {F : Type 0} (now : ℕ) (s : Server F)
    → IsTracked s
    → IsTracked (record s { receipts = prune now s.receipts })
prune-IsTracked now s h = record {
  bounded = omega (arith, h.bounded, length-prune now s.receipts);
  running = HasReceipt-prune now s.receipts s.work h.running;
}

pub launched-IsTracked :
    {F : Type 0} (stamp : ℕ) (s : Server F) (r : ActionRequest)
    → leb max_receipts (length s.receipts) ≡ false
    → IsTracked (launched stamp s r)
unfolding launched
launched-IsTracked stamp s r room = record {
  bounded = omega (arith, leb-false _ _ room, length-insert r.request_id _ s.receipts);
  running = (_, lookup-insert_self r.request_id _ s.receipts, refl, refl);
}

abbrev pub pruned_by : {F : Type 0} → ℕ → Server F → Server F
pruned_by now s = record s { receipts = prune now s.receipts }

-- The ways in which the first part of `serveAction` ends.
pub data Begun {F : Type 0} (now checked stamp : ℕ) (s : Server F) (r : ActionRequest)
    : Server F → Reaction F → Type 0 where
  refused_early : (n : ℕ) → Begun now checked stamp s r s (rejects n)
  refused_late : (n : ℕ) → Begun now checked stamp s r (pruned_by now s) (rejects n)
  turned_away :
      Begun now checked stamp s r (record (pruned_by now s) { work = answering }) (rejects 409)
  repeated :
      (n : ℕ) (known : Receipt) → Begun now checked stamp s r (pruned_by now s) (repeats n known)
  begun :
      (row : Row F)
      → lookup r.request_id (prune now s.receipts) ≡ none
      → leb max_receipts (length (prune now s.receipts)) ≡ false
      → claims_work s ≡ true
      → target checked s r ≡ some row
      → Begun now checked stamp s r (launched stamp (pruned_by now s) r) (launches row r)

repeat-Begun :
    {F : Type 0} (now checked stamp : ℕ) (s : Server F) (r : ActionRequest) (known : Receipt)
    → Begun now checked stamp s r (pruned_by now s) (repeat known r)
unfolding repeat
repeat-Begun now checked stamp s r known = elim (Bool-cases (not (same_request known.request r))) [
  | inl e ↦ rw e (refused_late 409)
  | inr e ↦ rw e (repeated _ known)
]

claimed-Begun :
    {F : Type 0} (now checked stamp : ℕ) (s : Server F) (r : ActionRequest)
    → lookup r.request_id (prune now s.receipts) ≡ none
    → leb max_receipts (length (prune now s.receipts)) ≡ false
    → claims_work s ≡ true
    → let x : Server F × Reaction F = elim (target checked (pruned_by now s) r) [
      | none ↦ (record (pruned_by now s) { work = answering }, rejects 409)
      | some row ↦ (launched stamp (pruned_by now s) r, launches row r)
    ] in
      Begun now checked stamp s r x.0 x.1
unfolding target
claimed-Begun now checked stamp s r new room claim = elim (Option-cases (target checked s r)) [
  | inl e ↦ rw e turned_away
  | inr (row, e) ↦ rw e (begun row new room claim e)
]

pub begin_action-Begun :
    {F : Type 0} (now checked stamp : ℕ) (s : Server F) (r : ActionRequest)
    → let x = begin_action now checked stamp s r in Begun now checked stamp s r x.0 x.1
unfolding begin_action claims_work
begin_action-Begun now checked stamp s r = elim (Bool-cases (not (valid_action r))) [
  | inl e ↦ rw e (refused_early 400)
  | inr e ↦ elim (Option-cases (lookup r.request_id (prune now s.receipts))) [
    | inr (c, l) ↦ rw (e, l) (repeat-Begun now checked stamp s r c.receipt)
    | inl l ↦ elim (Bool-cases (leb max_receipts (length (prune now s.receipts)))) [
      | inl b ↦ rw (e, l, b) (refused_late 429)
      | inr b ↦ elim (Bool-cases (claims_work s)) [
        | inr w ↦ rw (e, l, b, w) (refused_late 429)
        | inl w ↦ rw (e, l, b, w) (claimed-Begun now checked stamp s r l b w)
      ]
    ]
  ]
]
