-- ===== src/Billing/Queue/Collision.antt =====
-- Two events that persistEventSent of pkg/controller/billing/delivery.go cannot tell apart: it finds
-- the event to mark by instance, type and time, and the API server keeps times to the second.
use appcat.Common.{
  ℕ, zero, suc, true, List, [], ◌∷◌, ◌++◌, some, ◌≡◌, refl, sym, arith, ap, ◌∙◌, subst,
}
use appcat.Billing.Types.{BillingEvent, BillingService}
use appcat.Billing.Client.{Client, InstanceEvent, Storage, Hears, Accepts}
use appcat.Billing.Queue.{next_event, same_key, as_sent, mark_sent, instance_event}
use appcat.Billing.Queue.Order.{IsNext, IsNext-next_event}
use appcat.Billing.Queue.Drain.{HasInstance, rounds, process_queue-marks}

-- The newest event has the key of the next one: it is the one that is marked.
mark_sent-newest :
    (t : ℕ) (e d : BillingEvent) (es : List BillingEvent)
    → same_key e d ≡ true
    → mark_sent (record d { last_attempt_time = t }) (e ∷ es) ≡ some (as_sent t e ∷ es)
unfolding mark_sent same_key
mark_sent-newest t e d es same = rw same

newest_sent-IsNext :
    (t i : ℕ) (e d : BillingEvent) (es : List BillingEvent)
    → IsNext (e ∷ es) (suc i) d
    → IsNext (as_sent t e ∷ es) (suc i) d
newest_sent-IsNext t i e d es next = record {
  at = next.at;
  urgent = next.urgent;
  first = (omega (arith, next.urgent), next.first.1);
  oldest = next.oldest;
}

same_key-sent : (t : ℕ) (e d : BillingEvent) → same_key e d ≡ true → same_key (as_sent t e) d ≡ true
unfolding same_key
same_key-sent t e d same = same

-- The newest event after `n` rounds.
abbrev pub newest_after : ℕ → ℕ → BillingEvent → BillingEvent
newest_after zero t e = e
newest_after (suc n) t e = as_sent t e

-- A message, `n` times.
abbrev pub copies : ℕ → InstanceEvent → List InstanceEvent
copies zero m = []
copies (suc n) m = m ∷ copies n m

copies-append :
    (n : ℕ) (m : InstanceEvent) (ms : List InstanceEvent)
    → copies n m ++ (m ∷ ms) ≡ m ∷ (copies n m ++ ms)
copies-append zero m ms = refl
copies-append (suc n) m ms = ap (◌∷◌ m) (copies-append n m ms)

newest_after-sent :
    (n t t' : ℕ) (e : BillingEvent)
    → (last : ℕ) × (newest_after n t' (as_sent t e) ≡ newest_after (suc n) last e)
newest_after-sent zero t t' e = (t, refl)
newest_after-sent (suc n) t t' e = (t', refl)

module _ {W : Type 0} {c : Client W} {stored : W → BillingService} {heard : W → List InstanceEvent}
    (storage : Storage c stored) (hears : Hears c heard) (accepts : Accepts c) where
  -- Though no call fails and Odoo takes every event: if the newest event has the key of the event
  -- that is to be delivered, then in any number of rounds Odoo takes the message of that event once
  -- in each round, and nothing else; the newest event is the only one that changes, and is marked as
  -- sent from the first round on; the delivered event is where it was, and is to be delivered next.
  pub rounds_collision :
      (n i : ℕ) (svc : BillingService) (e d : BillingEvent) (es : List BillingEvent) (w : W)
      → stored w ≡ svc
      → svc.events ≡ e ∷ es
      → HasInstance d
      → same_key e d ≡ true
      → IsNext (e ∷ es) (suc i) d
      → (heard (rounds c n svc w).1 ≡ copies n (instance_event c svc d) ++ heard w)
        × ((t : ℕ) × ((rounds c n svc w).0.events ≡ newest_after n t e ∷ es))
        × (next_event (rounds c n svc w).0 ≡ some (suc i, d))
  rounds_collision zero i svc e d es w held list named same next = (
    refl,
    (0, list),
    IsNext-next_event svc (suc i) d (subst (λ l. IsNext l (suc i) d) (sym list) next),
  )
  rounds_collision (suc n) i svc e d es w held list named same next =
      let t = (c.now w).0 in
      let next' = subst (λ l. IsNext l (suc i) d) (sym list) next in
      let marks : mark_sent (record d { last_attempt_time = t }) svc.events
          ≡ some (as_sent t e ∷ es) =
        rw list (mark_sent-newest t e d es same) in
      let (w', done, held', took) =
        process_queue-marks storage hears accepts svc (suc i) d (as_sent t e ∷ es) w held named
          (IsNext-next_event svc (suc i) d next') next'.at marks in
      let (told, (t', list'), again) =
        rounds_collision n i (record svc { events = as_sent t e ∷ es }) (as_sent t e) d es w' held'
          refl named (same_key-sent t e d same) (newest_sent-IsNext t i e d es next) in
      let (last, merged) = newest_after-sent n t t' e in
      (
        ap (λ r. heard (rounds c n r.1 r.2).1) done
            ∙ told
            ∙ ap (◌++◌ (copies n (instance_event c svc d))) took
            ∙ copies-append n (instance_event c svc d) (heard w),
        (last, ap (λ r. (rounds c n r.1 r.2).0.events) done ∙ list' ∙ ap (λ x. x ∷ es) merged),
        ap (λ r. next_event (rounds c n r.1 r.2).0) done ∙ again,
      )
