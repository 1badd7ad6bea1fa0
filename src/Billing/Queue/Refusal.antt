-- ===== src/Billing/Queue/Refusal.antt =====
-- What a refused event does to the queue of pkg/controller/billing/delivery.go.
use appcat.Common.{
  ℕ, zero, suc, ◌+◌, some, get_elem?, set, set-set, set-get, ◌≡◌, refl, sym, arith, ap, ◌∙◌,
}
use appcat.Billing.Types.{BillingEvent, BillingService, failed}
use appcat.Billing.Client.{Client, err, ApiError, Storage, push_status-accepted}
use appcat.Billing.Queue.{
  next_event, send_event_to_odoo, deliver_queued_event, process_queue, instance_event,
}
use appcat.Billing.Queue.Order.{IsNext, IsNext-next_event, IsNext-set, rank}
use appcat.Billing.Queue.Drain.{HasInstance, rounds}

-- The event after `n` refused attempts, the last at `t`.
abbrev refused : BillingEvent → ℕ → ℕ → BillingEvent
refused e n t = record e { state = failed; retry_count = e.retry_count + n; last_attempt_time = t }

-- Odoo takes no event of the instance.
abbrev pub Refuses : {W : Type 0} → Client W → BillingEvent → Type 0
Refuses {W} c e =
    (svc : BillingService) (d : BillingEvent) (w : W)
    → d.instance_id ≡ e.instance_id
    → (x : ApiError) × ((c.send (instance_event c svc d) w).0 ≡ err x)

module _ {W : Type 0} {c : Client W} {stored : W → BillingService}
    (storage : Storage c stored) where
  -- One refused attempt: the event becomes failed, with one more retry and the time of the attempt.
  process_queue-refused :
      (svc : BillingService) (i : ℕ) (e : BillingEvent) (w : W)
      → Refuses c e
      → HasInstance e
      → next_event svc ≡ some (i, e)
      → get_elem? svc.events i ≡ some e
      → (process_queue c svc w).1
        ≡ record svc { events = set svc.events i (refused e 1 (c.now w).0) }
  unfolding process_queue deliver_queued_event send_event_to_odoo
  process_queue-refused svc i e w refuses named taken at =
      let t = (c.now w).0 in
      let event : BillingEvent = record e { last_attempt_time = t } in
      let (x, answer) = refuses svc event (c.now w).1 refl in
      let w₂ = (c.send (instance_event c svc event) (c.now w).1).1 in
      let answered : c.send (instance_event c svc event) (c.now w).1 ≡ (err x, w₂) =
        ap (λ r. (r, w₂)) answer in
      rw (taken, at, named, answered) (push_status-accepted storage after w₂)
    where
      after : BillingService
      after = record svc { events = set svc.events i (refused e 1 (c.now w).0) }

  -- The oldest failed event, while no event is to be sent again and Odoo takes no event of its
  -- instance: every round goes to that event. After `n` rounds it is failed with `n` more retries, and
  -- no other event of the list has been touched, however many are pending or failed later.
  pub rounds-refused :
      (n : ℕ) (svc : BillingService) (i : ℕ) (e : BillingEvent) (w : W)
      → Refuses c e
      → HasInstance e
      → e.state ≡ failed
      → IsNext svc.events i e
      → (t : ℕ) × ((rounds c n svc w).0 ≡ record svc { events = set svc.events i (refused e n t) })
  rounds-refused zero svc i e w refuses named fails next =
      let whole : refused e 0 e.last_attempt_time ≡ e = ground arith in
      (
        e.last_attempt_time,
        ap (λ es. record svc { events = es })
            (sym (set-get svc.events i next.at) ∙ ap (set svc.events i) (sym whole)),
      )
  rounds-refused (suc n) svc i e w refuses named fails next =
      let t = (c.now w).0 in
      let e' = refused e 1 t in
      let svc' : BillingService = record svc { events = set svc.events i e' } in
      let step =
        process_queue-refused svc i e w refuses named (IsNext-next_event svc i e next) next.at in
      let same : rank e' ≡ rank e = ground arith in
      let (t', later) =
        rounds-refused n svc' i e' (process_queue c svc w).2 refuses named refl
          (IsNext-set svc.events i e e' same next) in
      let merged : refused e' n t' ≡ refused e (suc n) t' = ground arith in
      (
        t',
        ap (λ s. (rounds c n s (process_queue c svc w).2).0) step
            ∙ later
            ∙ ap (λ es. record svc { events = es })
                (set-set svc.events i e' (refused e' n t') ∙ ap (set svc.events i) merged),
      )
