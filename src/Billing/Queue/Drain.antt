-- ===== src/Billing/Queue/Drain.antt =====
-- Rounds of processQueue of pkg/controller/billing/delivery.go against an API server that answers.
use appcat.Common.{
  ℕ, zero, suc, ◌+◌, ◌&&◌, if◌then◌else◌, Bool, true, false, List, [], ◌∷◌, some, get_elem?, set,
  any, All-get_elem?, count_if, length, length-set, All, ◌≡◌, refl, arith, str_eq, eq_refl, inl,
  inr, ap, ◌∙◌, subst,
}
use appcat.Billing.Types.{BillingEvent, BillingService}
use appcat.Billing.Events.{is_open, has_backlog}
use appcat.Billing.Client.{Client, InstanceEvent, ok, Storage, Hears, Accepts}
use appcat.Billing.Queue.{
  next_event, same_key, as_sent, mark_sent, persist_event_sent, send_event_to_odoo,
  deliver_queued_event, process_queue, instance_event, is_transient_api_error,
}
use appcat.Billing.Queue.Order.{next_event-Answers, next_event-has_backlog, is_open-rank}

-- No two events have the same instance, type and time: what persistEventSent finds an event by.
abbrev pub DistinctKeys : List BillingEvent → Type 0
DistinctKeys [] = Unit
DistinctKeys (e ∷ es) = All (λ d. same_key e d ≡ false) es × DistinctKeys es

abbrev pub HasInstance : BillingEvent → Type 0
HasInstance e = str_eq e.instance_id "" ≡ false

same_key_refl : (t : ℕ) (e : BillingEvent) → same_key e (record e { last_attempt_time = t }) ≡ true
unfolding same_key
same_key_refl t e = ground (arith, eq_refl e.instance_id)

same_key-attempt :
    (t : ℕ) (d e : BillingEvent) → same_key d (record e { last_attempt_time = t }) ≡ same_key d e
unfolding same_key
same_key-attempt t d e = refl

mark_sent-get :
    (t i : ℕ) (es : List BillingEvent) {e : BillingEvent}
    → DistinctKeys es
    → get_elem? es i ≡ some e
    → mark_sent (record e { last_attempt_time = t }) es ≡ some (set es i (as_sent t e))
unfolding mark_sent
mark_sent-get t i [] keys at = cc
mark_sent-get t zero (d ∷ es) {e} keys at = let same : d ≡ e = cc in rw (same, same_key_refl t e)
mark_sent-get t (suc i) (d ∷ es) {e} keys at =
    let other = All-get_elem? (λ x. same_key d x ≡ false) es i keys.0 at in
    rw (same_key-attempt t d e, other, mark_sent-get t i es keys.1 at)

-- Marking an event as sent keeps its key, and so the distinctness of the keys.
All-same_key-set :
    (t i : ℕ) (d e : BillingEvent) (es : List BillingEvent)
    → get_elem? es i ≡ some e
    → All (λ x. same_key d x ≡ false) es
    → All (λ x. same_key d x ≡ false) (set es i (as_sent t e))
unfolding same_key
All-same_key-set t i d e [] at h = tt
All-same_key-set t zero d e (x ∷ es) at h =
    let same : x ≡ e = cc in (subst (λ y. same_key d y ≡ false) same h.0, h.1)
All-same_key-set t (suc i) d e (x ∷ es) at h = (h.0, All-same_key-set t i d e es at h.1)

All-same_key-sent :
    (t : ℕ) (d : BillingEvent) (es : List BillingEvent)
    → All (λ x. same_key d x ≡ false) es
    → All (λ x. same_key (as_sent t d) x ≡ false) es
unfolding same_key
All-same_key-sent t d es h = h

set-DistinctKeys :
    (t i : ℕ) (e : BillingEvent) (es : List BillingEvent)
    → get_elem? es i ≡ some e
    → DistinctKeys es
    → DistinctKeys (set es i (as_sent t e))
set-DistinctKeys t i e [] at h = tt
set-DistinctKeys t zero e (x ∷ es) at h =
    let same : x ≡ e = cc in
    (All-same_key-sent t e es (subst (λ y. All (λ z. same_key y z ≡ false) es) same h.0), h.1)
set-DistinctKeys t (suc i) e (x ∷ es) at h =
    (All-same_key-set t i x e es at h.0, set-DistinctKeys t i e es at h.1)

set-HasInstance :
    (t i : ℕ) (e : BillingEvent) (es : List BillingEvent)
    → get_elem? es i ≡ some e
    → All HasInstance es
    → All HasInstance (set es i (as_sent t e))
set-HasInstance t i e [] at h = tt
set-HasInstance t zero e (x ∷ es) at h = let same : x ≡ e = cc in (subst HasInstance same h.0, h.1)
set-HasInstance t (suc i) e (x ∷ es) at h = (h.0, set-HasInstance t i e es at h.1)

-- A delivery takes the event out of what is counted, where sent events do not count.
count_if-set :
    (q : BillingEvent → Bool) (t i : ℕ) (e : BillingEvent) (es : List BillingEvent)
    → get_elem? es i ≡ some e
    → q (as_sent t e) ≡ false
    → count_if q es ≡ count_if q (set es i (as_sent t e)) + (if q e then 1 else 0)
count_if-set q t i e [] at sent_out = cc
count_if-set q t zero e (x ∷ es) at sent_out =
    let same : x ≡ e = cc in rw (same, sent_out) (ground arith)
count_if-set q t (suc i) e (x ∷ es) at sent_out =
    let rest = count_if-set q t i e es at sent_out in ground arith

-- What the queue needs for each delivery to reach the event that it is about.
pub record Ready (svc : BillingService) : Type 0 where
  pub keys : DistinctKeys svc.events
  pub instances : All HasInstance svc.events

abbrev pub delivered : BillingService → ℕ → BillingEvent → ℕ → BillingService
delivered svc i e t = record svc { events = set svc.events i (as_sent t e) }

module _ {W : Type 0} {c : Client W} {stored : W → BillingService} {heard : W → List InstanceEvent}
    (storage : Storage c stored) (hears : Hears c heard) (accepts : Accepts c) where
  persist_event_sent_lem :
      (svc : BillingService) (event : BillingEvent) (marked : List BillingEvent) (w : W)
      → stored w ≡ svc
      → mark_sent event svc.events ≡ some marked
      → (w' : W) × (persist_event_sent c event w ≡ (ok (record svc { events = marked }), w'))
        × (stored w' ≡ record svc { events = marked })
        × (heard w' ≡ heard w)
  unfolding persist_event_sent
  persist_event_sent_lem svc event marked w held marks = (
    (c.status_update (record svc { events = marked }) w).1,
    rw (storage.get_stored w, held, persist_event_sent, marks)
        (ap (λ r. (r, (c.status_update (record svc { events = marked }) w).1))
          (storage.status_accepted (record svc { events = marked }) w)),
    storage.status_stored (record svc { events = marked }) w,
    hears.status_hears (record svc { events = marked }) w,
  )

  send_event_to_odoo_lem :
      (svc : BillingService) (e : BillingEvent) (w : W)
      → HasInstance e
      → (w' : W) × (send_event_to_odoo c svc e w ≡ (ok tt, w'))
        × (stored w' ≡ stored w)
        × (heard w' ≡ instance_event c svc e ∷ heard w)
  unfolding send_event_to_odoo
  send_event_to_odoo_lem svc e w named = (
    (c.send message w).1,
    rw named (ap (λ r. (r, (c.send message w).1)) (accepts message w)),
    storage.send_keeps message w,
    hears.send_hears message w (c.send message w).1
        (ap (λ r. (r, (c.send message w).1)) (accepts message w)),
  )
    where
      message : InstanceEvent
      message = instance_event c svc e

  -- A round sends Odoo the next event, and marks the first that has its key.
  pub process_queue-marks :
      (svc : BillingService) (i : ℕ) (e : BillingEvent) (marked : List BillingEvent) (w : W)
      → stored w ≡ svc
      → HasInstance e
      → next_event svc ≡ some (i, e)
      → get_elem? svc.events i ≡ some e
      → mark_sent (record e { last_attempt_time = (c.now w).0 }) svc.events ≡ some marked
      → (w' : W) × (process_queue c svc w ≡ (ok true, record svc { events = marked }, w'))
        × (stored w' ≡ record svc { events = marked })
        × (heard w' ≡ instance_event c svc e ∷ heard w)
  unfolding process_queue deliver_queued_event
  process_queue-marks svc i e marked w held named taken at marks =
      let event : BillingEvent = record e { last_attempt_time = (c.now w).0 } in
      let (w₂, answered, kept, took) = send_event_to_odoo_lem svc event (c.now w).1 named in
      let (w₃, persisted, held', quiet) =
        persist_event_sent_lem svc event marked w₂ (kept ∙ storage.now_keeps w ∙ held) marks in
      (
        w₃,
        rw (taken, at, answered, storage.on_error_success is_transient_api_error _ w₂ persisted),
        held',
        quiet ∙ took ∙ ap (◌∷◌ (instance_event c svc e)) (hears.now_hears w),
      )

-- Rounds of processQueue, as the controller runs them by requeueing.
abbrev pub rounds : {W : Type 0} → Client W → ℕ → BillingService → W → BillingService × W
rounds c zero svc w = (svc, w)
rounds c (suc n) svc w = let (_, svc', w') = process_queue c svc w in rounds c n svc' w'

delivered-Ready :
    (svc : BillingService) (i : ℕ) (e : BillingEvent) (t : ℕ)
    → get_elem? svc.events i ≡ some e
    → Ready svc
    → Ready (delivered svc i e t)
delivered-Ready svc i e t at ready = record {
  keys = set-DistinctKeys t i e svc.events at ready.keys;
  instances = set-HasInstance t i e svc.events at ready.instances;
}

any-count_zero {ℓ} :
    {A : Type ℓ} (p : A → Bool) (xs : List A) → count_if p xs ≡ 0 → any p xs ≡ false
any-count_zero p [] h = refl
any-count_zero p (x ∷ xs) h = ground (arith, any-count_zero p xs)

count_if-any-false {ℓ} :
    {A : Type ℓ} (p : A → Bool) (xs : List A) → any p xs ≡ false → count_if p xs ≡ 0
count_if-any-false p [] h = refl
count_if-any-false p (x ∷ xs) h = ground (arith, count_if-any-false p xs)

count_if-and_zero {ℓ} :
    {A : Type ℓ} (p q : A → Bool) (xs : List A)
    → count_if p xs ≡ 0
    → count_if (λ x. p x && q x) xs ≡ 0
count_if-and_zero p q [] h = refl
count_if-and_zero p q (x ∷ xs) h = ground (arith, count_if-and_zero p q xs)

-- The open events whose message passes a test.
abbrev pub to_tell :
    {W : Type 0} → Client W → BillingService → (InstanceEvent → Bool) → BillingEvent → Bool
to_tell c svc p e = is_open e && p (instance_event c svc e)

open_left :
    (t i n : ℕ) (e : BillingEvent) (es : List BillingEvent)
    → get_elem? es i ≡ some e
    → is_open e ≡ true
    → count_if is_open es ≡ suc n
    → count_if is_open (set es i (as_sent t e)) ≡ n
unfolding is_open
open_left t i n e es at open_e left =
    let one = count_if-set is_open t i e es at refl in
    let taken : count_if is_open es ≡ count_if is_open (set es i (as_sent t e)) + 1 =
      one ∙ ap (λ b. count_if is_open (set es i (as_sent t e)) + (if b then 1 else 0)) open_e in
    omega (arith, taken, left)

-- The message of a delivered event is counted where its event was.
one_told :
    {W : Type 0} (c : Client W) (svc : BillingService) (p : InstanceEvent → Bool) (t i : ℕ)
    (e : BillingEvent) (before after : List InstanceEvent)
    → get_elem? svc.events i ≡ some e
    → is_open e ≡ true
    → after ≡ instance_event c svc e ∷ before
    → count_if (to_tell c svc p) (set svc.events i (as_sent t e)) + count_if p after
      ≡ count_if (to_tell c svc p) svc.events + count_if p before
unfolding is_open
one_told c svc p t i e before after at open_e took =
    let one = count_if-set (to_tell c svc p) t i e svc.events at refl in
    let rest = count_if (to_tell c svc p) (set svc.events i (as_sent t e)) in
    let taken : count_if (to_tell c svc p) svc.events
        ≡ rest + (if p (instance_event c svc e) then 1 else 0) =
      one ∙ ap (λ b. rest + (if b && p (instance_event c svc e) then 1 else 0)) open_e in
    rw (took, taken) (ground arith)

idle-count_suc :
    {n : ℕ} (svc : BillingService)
    → count_if is_open svc.events ≡ suc n
    → has_backlog svc ≡ false
    → ⊥
unfolding has_backlog
idle-count_suc svc left idle = omega (arith, count_if-any-false is_open svc.events idle, left)

module _ {W : Type 0} {c : Client W} {stored : W → BillingService} {heard : W → List InstanceEvent}
    (storage : Storage c stored) (hears : Hears c heard) (accepts : Accepts c) where
  -- If no call fails, Odoo takes every event, and the events have distinct keys and instance ids,
  -- then as many rounds as there are open events leave none: the queue is drained, no event is
  -- lost, and the server holds the result. For any test on messages, Odoo has then taken as many
  -- more messages that pass it as there were open events with such a message: it took the message of
  -- each open event once, and nothing else.
  pub rounds_drain :
      (n : ℕ) (svc : BillingService) (w : W)
      → stored w ≡ svc
      → Ready svc
      → count_if is_open svc.events ≡ n
      → (has_backlog (rounds c n svc w).0 ≡ false)
        × (length (rounds c n svc w).0.events ≡ length svc.events)
        × (stored (rounds c n svc w).1 ≡ (rounds c n svc w).0)
        × ((p : InstanceEvent → Bool)
            → count_if p (heard (rounds c n svc w).1)
              ≡ count_if (to_tell c svc p) svc.events + count_if p (heard w))
  unfolding has_backlog
  rounds_drain zero svc w held ready left = (
    any-count_zero is_open svc.events left,
    refl,
    held,
    λ p.
        let none_open =
          count_if-and_zero is_open (λ e. p (instance_event c svc e)) svc.events left in
        let shown : count_if (to_tell c svc p) svc.events ≡ 0 = none_open in omega (arith, shown),
  )
  rounds_drain (suc n) svc w held ready left = elim (next_event-Answers svc) [
    | inl (nothing, shut) ↦
        absurd (idle-count_suc svc left ((next_event-has_backlog svc).0 nothing))
    | inr (i, e, taken, next) ↦
        let t = (c.now w).0 in
        let open_e : is_open e ≡ true = ground (arith, is_open-rank e, next.urgent) in
        let (w', done, held', took) =
          process_queue-marks storage hears accepts svc i e (set svc.events i (as_sent t e)) w held
            (All-get_elem? HasInstance svc.events i ready.instances next.at) taken next.at
            (mark_sent-get t i svc.events ready.keys next.at) in
        let (idle, same_length, stays, told) =
          rounds_drain n (delivered svc i e t) w' held' (delivered-Ready svc i e t next.at ready)
            (open_left t i n e svc.events next.at open_e left) in
        rw (ap (λ r. rounds c n r.1 r.2) done) (
          idle,
          same_length ∙ length-set svc.events i (as_sent t e),
          stays,
          λ p. told p ∙ one_told c svc p t i e (heard w) (heard w') next.at open_e took,
        )
  ]
