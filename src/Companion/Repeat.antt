-- ===== src/Companion/Repeat.antt =====
-- companion/server.go: a request that is asked again.
use le_cli.Prelude.{
  ℕ, ◌+◌, ◌<◌, true, false, not, ◌&&◌, List, some, if◌then◌else◌, ltb, str_eq_refl, ◌≡◌, refl, All,
  ◌∷◌, ap, ◌∙◌, subst,
}
use le_cli.Prelude.Maps.{lookup, lookup-insert_self, bytes_eq}
use le_cli.Companion.{
  ActionRequest, pending, CachedReceipt, Receipt, Server, acting, repeats, begin_action,
  valid_action, repeat, same_request, is_final, receipt_ttl,
}
use le_cli.Companion.Laws.{HasReceipt, Running, lookup-prune, pending_stays}
use le_cli.Companion.Once.{run-IsSound, started-IsSound, step-IsSound}
use le_cli.Companion.Kept.{IsBefore, Keeps, live, run-Keeps}
use le_cli.Companion.Steps.{
  Event, action_ended, Run, step, run, started, Ended, interrupted, declined, broken, done,
  end_action, receipt_of,
}

same_request_refl : (r : ActionRequest) → same_request r r ≡ true
unfolding same_request
same_request_refl r =
    rw
      (
        str_eq_refl r.request_id,
        str_eq_refl r.snapshot_id,
        str_eq_refl r.target_id,
        str_eq_refl r.operation,
      )
      refl

repeat_known :
    {F : Type 0} (known : Receipt) (r : ActionRequest)
    → known.request ≡ r
    → repeat {F = F} known r ≡ repeats (if is_final known.state then 200 else 202) known
unfolding repeat
repeat_known known r e =
    let same : same_request known.request r ≡ true =
      ap (λ x. same_request x r) e ∙ same_request_refl r in
    rw same refl

begin_action-known :
    {F : Type 0} (now checked stamp : ℕ) (s : Server F) (r : ActionRequest) (c : CachedReceipt)
    → valid_action r ≡ true
    → lookup r.request_id s.receipts ≡ some c
    → (is_final c.receipt.state && not (ltb now c.expires)) ≡ false
    → c.receipt.request ≡ r
    → (begin_action now checked stamp s r).1
      ≡ repeats (if is_final c.receipt.state then 200 else 202) c.receipt
unfolding begin_action
begin_action-known now checked stamp s r c valid at kept same =
    let found = lookup-prune now r.request_id s.receipts c at kept in
    rw (valid, found) (repeat_known c.receipt r same)

receipt_of-request : (r : ActionRequest) (ended : Ended) → (receipt_of r ended).request ≡ r
unfolding receipt_of
receipt_of-request r interrupted = refl
receipt_of-request r declined = refl
receipt_of-request r broken = refl
receipt_of-request r (done m) = refl

receipt_of-is_final :
    (r : ActionRequest) (ended : Ended) → is_final (receipt_of r ended).state ≡ true
unfolding receipt_of is_final
receipt_of-is_final r interrupted = refl
receipt_of-is_final r declined = refl
receipt_of-is_final r broken = refl
receipt_of-is_final r (done m) = refl

ended-Keeps :
    {F : Type 0} (later : ℕ) (ended : Ended) (t : Run F) (r : ActionRequest)
    → t.server.work ≡ acting r
    → Keeps r.request_id
        (record { receipt = receipt_of r ended; expires = later + receipt_ttl })
        (step t (action_ended later ended))
unfolding step end_action
ended-Keeps later ended t r works = rw works (lookup-insert_self r.request_id _ t.server.receipts)

-- In every state that the server reaches while an action runs: if its request is asked again, then it
-- is answered 202 with its pending receipt; and if it is asked again when the action has ended, in
-- less than ten minutes, whatever else was asked, answered, timed or stopped since then, it is
-- answered 200 with the receipt of that end. Neither calls the engine.
pub repeated_action :
    {F : Type 0} (es since : List (Event F)) (r : ActionRequest) (now checked stamp later : ℕ)
    (ended : Ended)
    → (run {F = F} started es).server.work ≡ acting r
    → valid_action r ≡ true
    → All (IsBefore (later + receipt_ttl)) since
    → now < later + receipt_ttl
    → let t = run {F = F} started es in
      ((known : Receipt) × (known.state ≡ pending)
        × (known.request ≡ r)
        × ((begin_action now checked stamp t.server r).1 ≡ repeats 202 known))
      × ((begin_action now checked stamp (run t (action_ended later ended ∷ since)).server r).1
          ≡ repeats 200 (receipt_of r ended))
unfolding run
repeated_action {F} es since r now checked stamp later ended works valid before soon =
    let t = run {F = F} started es in
    let sound = run-IsSound started es started-IsSound in
    let (c, at, p, same) : Running t.server.receipts r =
      subst (HasReceipt t.server.receipts) works sound.tracked.running in
    let last : CachedReceipt = record {
      receipt = receipt_of r ended;
      expires = later + receipt_ttl;
    } in
    let fin : is_final last.receipt.state ≡ true = receipt_of-is_final r ended in
    let stays : Keeps r.request_id last (run (step t (action_ended later ended)) since) =
      run-Keeps r.request_id last fin (step t (action_ended later ended)) since
        (step-IsSound t (action_ended later ended) sound) before
        (ended-Keeps later ended t r works) in
    (
      (
        c.receipt,
        p,
        same,
        begin_action-known now checked stamp t.server r c valid at (pending_stays now c p) same
            ∙ ap (λ x. repeats (if is_final x then 200 else 202) c.receipt) p,
      ),
      begin_action-known now checked stamp (run (step t (action_ended later ended)) since).server r
            last valid stays (live now last soon) (receipt_of-request r ended)
          ∙ ap (λ b. repeats (if b then 200 else 202) (receipt_of r ended)) fin,
    )
