-- ===== src/Billing/Lifecycle/Items.antt =====
-- Creation and scaling of items: pkg/controller/billing/create.go and scale.go.
use appcat.Common.{
  ℕ, Bool, true, false, ◌&&◌, String, List, [], ◌∷◌, any, some, str_eq, eq_refl, eq_iff, ◌≡◌, refl,
  sym, ap, ◌∙◌, arith, if◌then◌else◌, Bool-cases, Option-cases, ◌⊎◌, inl, inr, subst, ◌≢◌,
}
use appcat.Billing.Types.{
  BillingEvent, BillingService, ItemSpec, EventType, created, scaled, deleted,
}
use appcat.Billing.Events.{
  has_event_by_instance_id, has_event_with_value_by_instance_id, last_sent_value_for_instance_id,
  has_backlog, is_open,
}
use appcat.Billing.Client.{Client, Storage, Walks, ok, ◌>>◌}
use appcat.Billing.Prune.{is_sent}
use appcat.Billing.Lifecycle.{
  event_for, instance_creation_timestamp, handle_item_creation, handle_item_scaling,
}
use appcat.Billing.Lifecycle.Enqueue.{enqueued, keep_unsent-enqueued, enqueue_event_lem}
use appcat.Billing.Lifecycle.Enqueues.{unsent}

-- An event among the unsent ones is among all.
any-unsent :
    (p : BillingEvent → Bool) (es : List BillingEvent) → any p (unsent es) ≡ true → any p es ≡ true
any-unsent p [] h = h
any-unsent p (e ∷ es) h = ground (arith, any-unsent p es)

any-enqueued_new :
    (p : BillingEvent → Bool) (max_events : ℕ) (e : BillingEvent) (es : List BillingEvent)
    → is_sent e ≡ false
    → p e ≡ true
    → any p (enqueued max_events e es) ≡ true
any-enqueued_new p max_events e es open_e hit =
    any-unsent p (enqueued max_events e es)
      (ap (any p) (keep_unsent-enqueued max_events e es open_e) ∙ rw hit)

event_for-unsent :
    (t : EventType) (item : ItemSpec) (v : String) (n : ℕ) → is_sent (event_for t item v n) ≡ false
unfolding is_sent
event_for-unsent t item v n = refl

has_created-enqueued :
    (max_events : ℕ) (item : ItemSpec) (t : ℕ) (svc : BillingService)
    → has_event_by_instance_id
        (record svc {
          events = enqueued max_events (event_for created item item.value t) svc.events;
        })
        created
        item.instance_id
      ≡ true
unfolding has_event_by_instance_id
has_created-enqueued max_events item t svc =
    any-enqueued_new _ max_events (event_for created item item.value t) svc.events
      (event_for-unsent created item item.value t) (rw (eq_refl item.instance_id))

has_scaled-enqueued :
    (max_events : ℕ) (item : ItemSpec) (t : ℕ) (svc : BillingService)
    → has_event_with_value_by_instance_id
        (record svc {
          events = enqueued max_events (event_for scaled item item.value t) svc.events;
        })
        scaled
        item.instance_id
        item.value
      ≡ true
unfolding has_event_with_value_by_instance_id
has_scaled-enqueued max_events item t svc =
    any-enqueued_new _ max_events (event_for scaled item item.value t) svc.events
      (event_for-unsent scaled item item.value t)
      (rw (eq_refl item.instance_id, eq_refl item.value))

-- Odoo was last told the item's value, or an event is queued that will tell it.
abbrev pub IsReported : ItemSpec → BillingService → Type 0
IsReported item svc =
    (last_sent_value_for_instance_id svc item.instance_id ≡ some item.value)
    ⊎ (any (λ e. is_open e && (str_eq e.instance_id item.instance_id && str_eq e.value item.value))
          svc.events
        ≡ true)

any-open :
    (p : BillingEvent → Bool) (es : List BillingEvent)
    → any is_open es ≡ false
    → any (λ e. is_open e && p e) es ≡ false
any-open p [] h = refl
any-open p (e ∷ es) h = ground (arith, any-open p es)

not-IsReported :
    (item : ItemSpec) (svc : BillingService) (last : String)
    → has_backlog svc ≡ false
    → last_sent_value_for_instance_id svc item.instance_id ≡ some last
    → last ≢ item.value
    → ¬ IsReported item svc
unfolding has_backlog
not-IsReported item svc last idle known differs (inl told) =
    differs (some-injective' (sym known ∙ told))
  where
    some-injective' : some last ≡ some item.value → last ≡ item.value
    some-injective' e = cc
not-IsReported item svc last idle known differs (inr queued) = cc (
    any-open (λ e. str_eq e.instance_id item.instance_id && str_eq e.value item.value) svc.events
      idle)

module _ {W : Type 0} (c : Client W) (max_events : ℕ) where
  scaling_done :
      (item : ItemSpec) (svc : BillingService) (w : W)
      → has_event_with_value_by_instance_id svc scaled item.instance_id item.value ≡ true
      → handle_item_scaling c max_events item svc w ≡ (ok tt, svc, w)
  unfolding handle_item_scaling
  scaling_done item svc w has =
      elim (Option-cases (last_sent_value_for_instance_id svc item.instance_id)) [
        | inl unknown ↦ rw unknown
        | inr (last, known) ↦ elim (Bool-cases (str_eq last item.value)) [
          | inl same ↦ rw (known, same)
          | inr other ↦ rw (known, other, has)
        ]
      ]

  -- An instance whose size was once reported as `item.value` by a scale event, and later as another
  -- size: once all events are delivered, the handler leaves Odoo with the other size.
  pub handle_item_scaling_lost :
      (item : ItemSpec) (svc : BillingService) (w : W) (last : String)
      → has_backlog svc ≡ false
      → last_sent_value_for_instance_id svc item.instance_id ≡ some last
      → last ≢ item.value
      → has_event_with_value_by_instance_id svc scaled item.instance_id item.value ≡ true
      → ¬ IsReported item (handle_item_scaling c max_events item svc w).1
  handle_item_scaling_lost item svc w last idle known differs has reported =
      not-IsReported item svc last idle known differs
        (subst (IsReported item) (ap (λ r. r.1) (scaling_done item svc w has)) reported)

  -- An item whose instance was created and then deleted, and whose value is the last that was
  -- sent: neither a create nor a scale event is enqueued for it.
  pub readded_item_ignored :
      (item : ItemSpec) (initial : Bool) (svc : BillingService) (w : W)
      → has_event_by_instance_id svc created item.instance_id ≡ true
      → has_event_by_instance_id svc deleted item.instance_id ≡ true
      → last_sent_value_for_instance_id svc item.instance_id ≡ some item.value
      → (handle_item_creation c max_events item initial >> handle_item_scaling c max_events item)
          svc w
        ≡ (ok tt, svc, w)
  unfolding handle_item_creation handle_item_scaling
  readded_item_ignored item initial svc w has gone known = rw (has, known, eq_refl item.value)

module _ {W : Type 0} {c : Client W} {stored : W → BillingService} (storage : Storage c stored)
    (walks : Walks c) (max_events : ℕ) where
  -- While no call fails, an item with no create event gets one, pending and in front of the unsent
  -- events, all of which are kept: at the instance's creation time if the object had no events,
  -- else at the current time. A second call changes nothing.
  pub handle_item_creation_new :
      (item : ItemSpec) (initial again : Bool) (svc : BillingService) (w : W) (t : ℕ)
      → has_event_by_instance_id svc created item.instance_id ≡ false
      → (if initial then instance_creation_timestamp c svc else some (c.now w).0) ≡ some t
      → (es' : List BillingEvent) × (w' : W) × (handle_item_creation c max_events item initial svc w
          ≡ (ok tt, record svc { events = es' }, w'))
        × (unsent es' ≡ event_for created item item.value t ∷ unsent svc.events)
        × (handle_item_creation c max_events item again (record svc { events = es' }) w'
            ≡ (ok tt, record svc { events = es' }, w'))
  unfolding handle_item_creation
  handle_item_creation_new item initial again svc w t new time =
      let event = event_for created item item.value t in
      let (w', run) = enqueue_event_lem storage walks max_events event svc (c.now w).1 in
      (
        enqueued max_events event svc.events,
        w',
        rw (new, time) run,
        keep_unsent-enqueued max_events event svc.events
            (event_for-unsent created item item.value t),
        rw (has_created-enqueued max_events item t svc),
      )

  -- While no call fails, an item whose value is not the last one sent, and for which no scale event
  -- has that value, gets such an event, pending, at the current time and in front of the unsent
  -- events, all of which are kept. A second call changes nothing.
  pub handle_item_scaling_new :
      (item : ItemSpec) (svc : BillingService) (w : W) (last : String)
      → last_sent_value_for_instance_id svc item.instance_id ≡ some last
      → last ≢ item.value
      → has_event_with_value_by_instance_id svc scaled item.instance_id item.value ≡ false
      → (es' : List BillingEvent) × (w' : W) × (handle_item_scaling c max_events item svc w
          ≡ (ok tt, record svc { events = es' }, w'))
        × (unsent es' ≡ event_for scaled item item.value (c.now w).0 ∷ unsent svc.events)
        × (handle_item_scaling c max_events item (record svc { events = es' }) w'
            ≡ (ok tt, record svc { events = es' }, w'))
  unfolding handle_item_scaling
  handle_item_scaling_new item svc w last known differs new =
      let t = (c.now w).0 in
      let event = event_for scaled item item.value t in
      let (w', run) = enqueue_event_lem storage walks max_events event svc (c.now w).1 in
      let other : str_eq last item.value ≡ false = ground (arith, eq_iff last item.value) in
      (
        enqueued max_events event svc.events,
        w',
        rw (known, other, new) run,
        keep_unsent-enqueued max_events event svc.events
            (event_for-unsent scaled item item.value t),
        scaling_done c max_events item
            (record svc { events = enqueued max_events event svc.events }) w'
            (has_scaled-enqueued max_events item t svc),
      )
