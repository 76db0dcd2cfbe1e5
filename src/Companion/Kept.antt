-- ===== src/Companion/Kept.antt =====
-- companion/server.go: the receipt of an action that has ended stays until its time is over.
use le_cli.Prelude.{
  ℕ, ◌<◌, Bytes, Bool, true, false, not, ◌&&◌, List, [], ◌∷◌, none, some, if◌then◌else◌, ltb, ◌≡◌,
  ◌≢◌, ap, sym, ◌∙◌, arith, Bool-cases, inl, inr, All, lt→ltb,
}
use le_cli.Prelude.Maps.{Map, lookup, insert, lookup-insert, bytes_eq}
use le_cli.Companion.{
  ActionRequest, Server, free, collecting, answering, acting, Worker, Reaction, CachedReceipt,
  pending, is_final, launched, claims_work, prune,
}
use le_cli.Companion.Steps.{
  Event, action_asked, action_ended, snapshot_asked, snapshot_ended, answered, timer, stop_asked,
  stop_ended, Run, react, publish, step, run, begin_snapshot, end_snapshot, Collected, published,
  error_status, collect, Ended, end_action, release, expire, stop, stopped,
}
use le_cli.Companion.Laws.{
  Begun, refused_early, refused_late, turned_away, repeated, begun, begin_action-Begun,
  lookup-prune, HasReceipt,
}
use le_cli.Companion.Once.{IsSound, step-IsSound}

-- A request looks at the clock before that time.
abbrev pub IsBefore : {F : Type 0} → ℕ → Event F → Type 0
IsBefore limit (action_asked pruned checked stamp r) = pruned < limit
IsBefore limit (action_ended now ended) = Unit
IsBefore limit snapshot_asked = Unit
IsBefore limit (snapshot_ended c) = Unit
IsBefore limit answered = Unit
IsBefore limit (timer id) = Unit
IsBefore limit stop_asked = Unit
IsBefore limit stop_ended = Unit

abbrev pub Keeps : {F : Type 0} → Bytes → CachedReceipt → Run F → Type 0
Keeps k c t = lookup k t.server.receipts ≡ some c

pub live :
    (now : ℕ) (c : CachedReceipt)
    → now < c.expires
    → (is_final c.receipt.state && not (ltb now c.expires)) ≡ false
live now c h = let e = lt→ltb now c.expires h in ground (arith, e)

lookup-insert_other :
    (k j : Bytes) (c v : CachedReceipt) (m : Map Bytes CachedReceipt)
    → lookup k m ≡ some c
    → k ≢ j
    → lookup k (insert j v m) ≡ some c
lookup-insert_other k j c v m h n =
    ground (arith, lookup-insert j k v m, h, n, bytes_eq.same_iff j k)

not_pending :
    (c d : CachedReceipt)
    → is_final c.receipt.state ≡ true
    → some d ≡ some c
    → d.receipt.state ≢ pending
unfolding is_final
not_pending c d final found p =
    let one : d ≡ c = cc in
    let fin : is_final d.receipt.state ≡ true = rw one final in
    let no : is_final d.receipt.state ≡ false = ap is_final p in cc

module _ {F : Type 0} (k : Bytes) (c : CachedReceipt)
    (final : is_final c.receipt.state ≡ true) where
  react-Keeps :
      (now checked stamp : ℕ) (t : Run F) (r : ActionRequest) (s : Server F) (x : Reaction F)
      → now < c.expires
      → Keeps k c t
      → Begun now checked stamp t.server r s x
      → Keeps k c (react t s x)
  unfolding react launched
  react-Keeps now checked stamp t r s _ soon h (refused_early n) = h
  react-Keeps now checked stamp t r s _ soon h (refused_late n) =
      lookup-prune now k t.server.receipts c h (live now c soon)
  react-Keeps now checked stamp t r s _ soon h turned_away =
      lookup-prune now k t.server.receipts c h (live now c soon)
  react-Keeps now checked stamp t r s _ soon h (repeated n known) =
      lookup-prune now k t.server.receipts c h (live now c soon)
  react-Keeps now checked stamp t r s _ soon h (begun row new room claim found) =
      let kept = lookup-prune now k t.server.receipts c h (live now c soon) in
      lookup-insert_other k r.request_id c _ (prune now t.server.receipts) kept (λ e.
        let same : lookup k (prune now t.server.receipts) ≡ none =
          ap (λ y. lookup y (prune now t.server.receipts)) e ∙ new in
        cc)

  -- The action that ends has a pending receipt, so it is another one.
  action_ended-Keeps :
      (now : ℕ) (ended : Ended) (t : Run F) (w : Worker)
      → HasReceipt t.server.receipts w
      → Keeps k c t
      → Keeps k c (elim w [
        | free ↦ t
        | collecting ↦ t
        | answering ↦ t
        | acting r ↦ record t { server = end_action now ended r t.server }
      ])
  unfolding end_action
  action_ended-Keeps now ended t free running h = h
  action_ended-Keeps now ended t collecting running h = h
  action_ended-Keeps now ended t answering running h = h
  action_ended-Keeps now ended t (acting r) (d, at, p, same) h =
      lookup-insert_other k r.request_id c _ t.server.receipts h (λ e.
        let found : some d ≡ some c = sym at ∙ ap (λ y. lookup y t.server.receipts) (sym e) ∙ h in
        not_pending c d final found p)

  publish-Keeps : (t : Run F) (x : Collected F) → Keeps k c t → Keeps k c (publish t x)
  unfolding publish end_snapshot
  publish-Keeps t (error_status n) h = h
  publish-Keeps t (published shot) h = h

  snapshot_ended-Keeps :
      (x : Collected F) (t : Run F) (w : Worker)
      → Keeps k c t
      → Keeps k c (elim w [ free ↦ t | collecting ↦ publish t x | answering ↦ t | acting r ↦ t ])
  snapshot_ended-Keeps x t free h = h
  snapshot_ended-Keeps x t collecting h = publish-Keeps t x h
  snapshot_ended-Keeps x t answering h = h
  snapshot_ended-Keeps x t (acting r) h = h

  begin_snapshot-Keeps :
      (t : Run F) → Keeps k c t → Keeps k c (record t { server = (begin_snapshot t.server).0 })
  unfolding begin_snapshot
  begin_snapshot-Keeps t h = elim (Bool-cases (claims_work t.server)) [
    | inl e ↦ rw e h
    | inr e ↦ rw e h
  ]

  expire-receipts : (id : Bytes) (s : Server F) → (expire id s).receipts ≡ s.receipts
  unfolding expire
  expire-receipts id s = ground arith

  release-receipts : (s : Server F) → (release s).receipts ≡ s.receipts
  unfolding release
  release-receipts s = ground arith

  closed-Keeps :
      (b : Bool) (t : Run F)
      → Keeps k c t
      → Keeps k c (if b then record t { server = stopped t.server } else t)
  unfolding stopped
  closed-Keeps true t h = h
  closed-Keeps false t h = h

  stop_ended-Keeps :
      (t : Run F) (w : Worker)
      → Keeps k c t
      → Keeps k c (elim w [
        | free ↦ (if t.server.closing then record t { server = stopped t.server } else t)
        | collecting ↦ t
        | answering ↦ t
        | acting r ↦ t
      ])
  stop_ended-Keeps t free h = closed-Keeps t.server.closing t h
  stop_ended-Keeps t collecting h = h
  stop_ended-Keeps t answering h = h
  stop_ended-Keeps t (acting r) h = h

  step-Keeps :
      (t : Run F) (e : Event F)
      → IsSound t
      → IsBefore c.expires e
      → Keeps k c t
      → Keeps k c (step t e)
  unfolding step stop
  step-Keeps t (action_asked now checked stamp r) sound soon h =
      react-Keeps now checked stamp t r _ _ soon h (begin_action-Begun now checked stamp t.server r)
  step-Keeps t (action_ended now ended) sound soon h =
      action_ended-Keeps now ended t t.server.work sound.tracked.running h
  step-Keeps t snapshot_asked sound soon h = begin_snapshot-Keeps t h
  step-Keeps t (snapshot_ended x) sound soon h = snapshot_ended-Keeps (collect x) t t.server.work h
  step-Keeps t answered sound soon h = ap (λ m. lookup k m) (release-receipts t.server) ∙ h
  step-Keeps t (timer id) sound soon h = ap (λ m. lookup k m) (expire-receipts id t.server) ∙ h
  step-Keeps t stop_asked sound soon h = h
  step-Keeps t stop_ended sound soon h = stop_ended-Keeps t t.server.work h

  -- Whatever happens before the time of a final receipt is over, the receipt stays.
  pub run-Keeps :
      (t : Run F) (es : List (Event F))
      → IsSound t
      → All (IsBefore c.expires) es
      → Keeps k c t
      → Keeps k c (run t es)
  unfolding run
  run-Keeps t [] sound soon h = h
  run-Keeps t (e ∷ es) sound (first, soon) h =
      run-Keeps (step t e) es (step-IsSound t e sound) soon (step-Keeps t e sound first h)
