-- ===== src/Companion/Once.antt =====
-- companion/server.go: each snapshot serves for one action at most.
use le_cli.Prelude.{
  ℕ, ◌≤◌, Bytes, Bool, true, false, length, List, [], ◌∷◌, Option, none, some, if◌then◌else◌,
  str_eq, str_eq_iff, ◌≡◌, refl, ap, sym, ◌∙◌, subst, arith, Bool-cases, Option-cases, inl, inr,
  All, All-map_imp,
}
use le_cli.Prelude.Maps.{elem, Distinct, bytes_eq}
use le_cli.Companion.{
  ActionRequest, Row, Snapshot, Server, free, collecting, answering, acting, Reaction, claims_work,
  target, launched, max_receipts, Worker,
}
use le_cli.Companion.Steps.{
  Event, action_asked, action_ended, snapshot_asked, snapshot_ended, answered, timer, stop_asked,
  stop_ended, Run, react, publish, step, run, started, begin_snapshot, end_snapshot, Collected,
  published, error_status, collect, Ended, end_action, release, expire, stop, stopped,
}
use le_cli.Companion.Laws.{
  IsTracked, Begun, refused_early, refused_late, turned_away, repeated, begun, begin_action-Begun,
  pruned_by, prune-IsTracked, launched-IsTracked, length-insert_old, HasReceipt,
}

-- The snapshots that the requests name.
abbrev pub named : List ActionRequest → List Bytes
named [] = []
named (r ∷ rs) = r.snapshot_id ∷ named rs

-- The current snapshot was published, and no action has named it.
abbrev Unused : {F : Type 0} → List Bytes → List ActionRequest → Option (Snapshot F) → Type 0
Unused ps rs none = Unit
Unused ps rs (some shot) = (elem shot.id (named rs) ≡ false) × (elem shot.id ps ≡ true)

record Once {F : Type 0} (ps : List Bytes) (rs : List ActionRequest) (shot : Option (Snapshot F))
    : Type 0 where
  distinct : Distinct (named rs)
  known : All (λ x. elem x ps ≡ true) (named rs)
  unused : Unused ps rs shot

Once-none :
    {F : Type 0} (ps : List Bytes) (rs : List ActionRequest) (shot : Option (Snapshot F))
    → Once ps rs shot
    → Once {F = F} ps rs none
Once-none ps rs shot h = record { distinct = h.distinct; known = h.known; unused = tt }

named_target :
    {F : Type 0} (now : ℕ) (s : Server F) (r : ActionRequest) (row : Row F)
    → target now s r ≡ some row
    → (shot : Snapshot F) × (s.snapshot ≡ some shot) × (shot.id ≡ r.snapshot_id)
unfolding target
named_target now s r row h = elim (Option-cases s.snapshot) [
  | inl e ↦ ground (arith, e, h)
  | inr (shot, e) ↦ elim (Bool-cases (str_eq shot.id r.snapshot_id)) [
    | inl same ↦ (shot, e, (str_eq_iff shot.id r.snapshot_id).0 same)
    | inr other ↦ ground (arith, e, other, h)
  ]
]

Once-launched :
    {F : Type 0} (ps : List Bytes) (rs : List ActionRequest) (s : Server F) (now : ℕ)
    (r : ActionRequest) (row : Row F)
    → target now s r ≡ some row
    → Once ps rs s.snapshot
    → Once {F = F} ps (r ∷ rs) none
Once-launched {F} ps rs s now r row h once =
    let (shot, e, same) = named_target now s r row h in
    let (new, old) : Unused ps rs (some shot) = subst (Unused ps rs) e once.unused in
    record {
      distinct = (ap (λ x. elem x (named rs)) (sym same) ∙ new, once.distinct);
      known = (ap (λ x. elem x ps) (sym same) ∙ old, once.known);
      unused = tt;
    }

not_named :
    (id : Bytes) (ps xs : List Bytes)
    → elem id ps ≡ false
    → All (λ x. elem x ps ≡ true) xs
    → elem id xs ≡ false
unfolding elem
not_named id ps [] new h = refl
not_named id ps (x ∷ xs) new (hx, hs) = elim (Bool-cases (bytes_eq.same x id)) [
  | inl e ↦
      let same : elem x ps ≡ elem id ps = ap (λ y. elem y ps) ((str_eq_iff x id).0 e) in
      ground (arith, hx, new, same)
  | inr e ↦ ground (arith, e, not_named id ps xs new hs)
]

elem-cons : (x id : Bytes) (ps : List Bytes) → elem x ps ≡ true → elem x (id ∷ ps) ≡ true
unfolding elem
elem-cons x id ps h = ground (arith, h)

elem_self : (id : Bytes) (ps : List Bytes) → elem id (id ∷ ps) ≡ true
unfolding elem
elem_self id ps = ground (arith, (str_eq_iff id id).1 refl)

Once-published :
    {F : Type 0} (ps : List Bytes) (rs : List ActionRequest) (old : Option (Snapshot F))
    (shot : Snapshot F)
    → elem shot.id ps ≡ false
    → Once ps rs old
    → Once (shot.id ∷ ps) rs (some shot)
Once-published ps rs old shot new h = record {
  distinct = h.distinct;
  known = All-map_imp (λ x p. elem-cons x shot.id ps p) (named rs) h.known;
  unused = (not_named shot.id ps (named rs) new h.known, elem_self shot.id ps);
}

-- The invariant of a run.
pub record IsSound {F : Type 0} (t : Run F) : Type 0 where
  pub tracked : IsTracked t.server
  once : Distinct t.published → Once t.published t.actions t.server.snapshot

react-IsSound :
    {F : Type 0} (now checked stamp : ℕ) (t : Run F) (r : ActionRequest) (s : Server F)
    (x : Reaction F)
    → IsSound t
    → Begun now checked stamp t.server r s x
    → IsSound (react t s x)
unfolding react launched
react-IsSound now checked stamp t r s _ h (refused_early n) = record {
  tracked = h.tracked;
  once = h.once;
}
react-IsSound now checked stamp t r s _ h (refused_late n) = record {
  tracked = prune-IsTracked now t.server h.tracked;
  once = h.once;
}
react-IsSound now checked stamp t r s _ h turned_away = record {
  tracked = record { bounded = (prune-IsTracked now t.server h.tracked).bounded; running = tt };
  once = h.once;
}
react-IsSound now checked stamp t r s _ h (repeated n known) = record {
  tracked = prune-IsTracked now t.server h.tracked;
  once = h.once;
}
react-IsSound now checked stamp t r s _ h (begun row new room claim found) = record {
  tracked = launched-IsTracked stamp (pruned_by now t.server) r room;
  once = λ d. Once-launched t.published t.actions t.server checked r row found (h.once d);
}

end_action-IsTracked :
    {F : Type 0} (now : ℕ) (ended : Ended) (r : ActionRequest) (s : Server F)
    → length s.receipts ≤ max_receipts
    → HasReceipt s.receipts (acting r)
    → IsTracked (end_action now ended r s)
unfolding end_action
end_action-IsTracked now ended r s few (c, at, p, same) = record {
  bounded = omega (arith, few, length-insert_old r.request_id _ c s.receipts at);
  running = tt;
}

action_ended-IsSound :
    {F : Type 0} (now : ℕ) (ended : Ended) (t : Run F) (w : Worker)
    → IsSound t
    → HasReceipt t.server.receipts w
    → IsSound (elim w [
      | free ↦ t
      | collecting ↦ t
      | answering ↦ t
      | acting r ↦ record t { server = end_action now ended r t.server }
    ])
unfolding end_action
action_ended-IsSound now ended t free h running = h
action_ended-IsSound now ended t collecting h running = h
action_ended-IsSound now ended t answering h running = h
action_ended-IsSound now ended t (acting r) h running = record {
  tracked = end_action-IsTracked now ended r t.server h.tracked.bounded running;
  once = h.once;
}

publish-IsSound : {F : Type 0} (t : Run F) (c : Collected F) → IsSound t → IsSound (publish t c)
unfolding publish end_snapshot
publish-IsSound t (error_status n) h = record {
  tracked = record { bounded = h.tracked.bounded; running = tt };
  once = h.once;
}
publish-IsSound t (published shot) h = record {
  tracked = record { bounded = h.tracked.bounded; running = tt };
  once = λ (new, d). Once-published t.published t.actions t.server.snapshot shot new (h.once d);
}

snapshot_ended-IsSound :
    {F : Type 0} (c : Collected F) (t : Run F) (w : Worker)
    → IsSound t
    → IsSound (elim w [ free ↦ t | collecting ↦ publish t c | answering ↦ t | acting r ↦ t ])
snapshot_ended-IsSound c t free h = h
snapshot_ended-IsSound c t collecting h = publish-IsSound t c h
snapshot_ended-IsSound c t answering h = h
snapshot_ended-IsSound c t (acting r) h = h

-- Taking the snapshot away.
without_snapshot-IsSound :
    {F : Type 0} (t : Run F)
    → IsSound t
    → IsSound (record t { server = record t.server { snapshot = none } })
without_snapshot-IsSound t h = record {
  tracked = record { bounded = h.tracked.bounded; running = h.tracked.running };
  once = λ d. Once-none t.published t.actions t.server.snapshot (h.once d);
}

begin_snapshot-IsSound :
    {F : Type 0} (t : Run F)
    → IsSound t
    → IsSound (record t { server = (begin_snapshot t.server).0 })
unfolding begin_snapshot
begin_snapshot-IsSound t h = elim (Bool-cases (claims_work t.server)) [
  | inl e ↦ rw e (record {
    tracked = record { bounded = h.tracked.bounded; running = tt };
    once = λ d. Once-none t.published t.actions t.server.snapshot (h.once d);
  })
  | inr e ↦ rw e h
]

IsSound-if :
    {F : Type 0} (b : Bool) (t : Run F) (x y : Server F)
    → IsSound (record t { server = x })
    → IsSound (record t { server = y })
    → IsSound (record t { server = if b then x else y })
IsSound-if true t x y hx hy = hx
IsSound-if false t x y hx hy = hy

timer-IsSound :
    {F : Type 0} (id : Bytes) (t : Run F) (o : Option (Snapshot F))
    → IsSound t
    → IsSound (record t {
      server = elim o [
        | none ↦ t.server
        | some shot ↦ (if str_eq shot.id id then record t.server { snapshot = none } else t.server)
      ];
    })
timer-IsSound id t none h = h
timer-IsSound id t (some shot) h =
    IsSound-if (str_eq shot.id id) t (record t.server { snapshot = none }) t.server
      (without_snapshot-IsSound t h) h

expire-IsSound :
    {F : Type 0} (id : Bytes) (t : Run F)
    → IsSound t
    → IsSound (record t { server = expire id t.server })
unfolding expire
expire-IsSound id t h = timer-IsSound id t t.server.snapshot h

closed-IsSound :
    {F : Type 0} (b : Bool) (t : Run F)
    → IsSound t
    → IsSound (if b then record t { server = stopped t.server } else t)
unfolding stopped
closed-IsSound true t h = without_snapshot-IsSound t h
closed-IsSound false t h = h

stop_ended-IsSound :
    {F : Type 0} (t : Run F) (w : Worker)
    → IsSound t
    → IsSound (elim w [
      | free ↦ (if t.server.closing then record t { server = stopped t.server } else t)
      | collecting ↦ t
      | answering ↦ t
      | acting r ↦ t
    ])
stop_ended-IsSound t free h = closed-IsSound t.server.closing t h
stop_ended-IsSound t collecting h = h
stop_ended-IsSound t answering h = h
stop_ended-IsSound t (acting r) h = h

answered-IsSound :
    {F : Type 0} (t : Run F) (w : Worker)
    → IsSound t
    → IsSound (record t {
      server = elim w [
        | free ↦ t.server
        | collecting ↦ t.server
        | answering ↦ record t.server { work = free }
        | acting r ↦ t.server
      ];
    })
answered-IsSound t free h = h
answered-IsSound t collecting h = h
answered-IsSound t answering h = record {
  tracked = record { bounded = h.tracked.bounded; running = tt };
  once = h.once;
}
answered-IsSound t (acting r) h = h

pub step-IsSound : {F : Type 0} (t : Run F) (e : Event F) → IsSound t → IsSound (step t e)
unfolding step stop release
step-IsSound t (action_asked now checked stamp r) h =
    react-IsSound now checked stamp t r _ _ h (begin_action-Begun now checked stamp t.server r)
step-IsSound t (action_ended now ended) h =
    action_ended-IsSound now ended t t.server.work h h.tracked.running
step-IsSound t snapshot_asked h = begin_snapshot-IsSound t h
step-IsSound t (snapshot_ended c) h = snapshot_ended-IsSound (collect c) t t.server.work h
step-IsSound t answered h = answered-IsSound t t.server.work h
step-IsSound t (timer id) h = expire-IsSound id t h
step-IsSound t stop_asked h = record {
  tracked = record { bounded = h.tracked.bounded; running = h.tracked.running };
  once = h.once;
}
step-IsSound t stop_ended h = stop_ended-IsSound t t.server.work h

pub run-IsSound : {F : Type 0} (t : Run F) (es : List (Event F)) → IsSound t → IsSound (run t es)
unfolding run
run-IsSound t [] h = h
run-IsSound t (e ∷ es) h = run-IsSound (step t e) es (step-IsSound t e h)

pub started-IsSound : {F : Type 0} → IsSound {F = F} started
started-IsSound = record {
  tracked = record { bounded = omega arith; running = tt };
  once = λ d. record { distinct = tt; known = tt; unused = tt };
}

-- However requests, answers of the engine, timers and the shutdown follow one another from the start
-- of the server: if no two published snapshots have the same id, then no two of the actions that
-- reached the engine name the same snapshot, and each of them names a published one.
pub run_once :
    {F : Type 0} (es : List (Event F))
    → Distinct (run {F = F} started es).published
    → Distinct (named (run {F = F} started es).actions)
      × All
          (λ x. elem x (run {F = F} started es).published ≡ true)
          (named (run {F = F} started es).actions)
run_once es d = let h = (run-IsSound started es started-IsSound).once d in (h.distinct, h.known)

-- However requests, answers of the engine, timers and the shutdown follow one another from the start
-- of the server: it keeps at most 128 receipts, and the request of the action that runs has a pending
-- one.
pub run-IsTracked : {F : Type 0} (es : List (Event F)) → IsTracked (run {F = F} started es).server
run-IsTracked es = (run-IsSound started es started-IsSound).tracked
