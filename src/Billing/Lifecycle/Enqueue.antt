-- ===== src/Billing/Lifecycle/Enqueue.antt =====
-- What enqueueEvent of pkg/controller/billing/events.go does to the event list.
use appcat.Common.{
  ℕ, ◌≤◌, Bool, true, false, not, ◌||◌, String, List, [], ◌∷◌, any, keep_if, keep_if-drop_or_keep,
  All, str_eq, eq_iff, eq_refl, ◌≡◌, refl, ap, ◌∙◌, arith, Bool-cases, inl, inr,
}
use appcat.Billing.Types.{BillingEvent, BillingService}
use appcat.Billing.Client.{Client, Storage, Walks, ok, push_status, push_status-eq}
use appcat.Billing.Prune.{is_sent, event_count, prune_events_if_needed}
use appcat.Billing.Prune.Marks.{
  Covers, excess, prune_spec, is_pruned, prune_events_if_needed-prune_spec,
}
use appcat.Billing.Prune.Spec.{keep_unsent-prune_spec}
use appcat.Billing.Lifecycle.{keys_of, instance_ids, enqueue_event}

any-keys_of : (k : String) (ks : List String) → any (str_eq k) (keys_of ks) ≡ any (str_eq k) ks
unfolding keys_of
any-keys_of k [] = refl
any-keys_of k (j ∷ ks) = elim (Bool-cases (any (str_eq j) ks)) [
  | inl again ↦ elim (Bool-cases (str_eq k j)) [
    | inl same ↦ let p = (eq_iff k j).0 same in rw (again, same) (any-keys_of k ks ∙ rw p again)
    | inr other ↦ rw (again, other) (any-keys_of k ks)
  ]
  | inr new ↦ rw (new, any-keys_of k ks)
]

any-instance_ids :
    (k : String) (es : List BillingEvent)
    → any (str_eq k) (instance_ids es) ≡ any (λ e. str_eq k e.instance_id) es
any-instance_ids k [] = refl
any-instance_ids k (e ∷ es) = ap (◌||◌ (str_eq k e.instance_id)) (any-instance_ids k es)

Covers-self :
    (es : List BillingEvent) (ids : List String)
    → ((k : String) → any (str_eq k) (instance_ids es) ≡ true → any (str_eq k) ids ≡ true)
    → All (Covers ids) es
Covers-self [] ids h = tt
Covers-self (e ∷ es) ids h = (
  h e.instance_id (rw (eq_refl e.instance_id)),
  Covers-self es ids (λ k has. h k (ground (arith, has))),
)

-- The event list after an event has been enqueued.
abbrev pub enqueued : ℕ → BillingEvent → List BillingEvent → List BillingEvent
enqueued max_events e es = prune_spec (excess max_events (e ∷ es)) (e ∷ es)

any-prune_spec :
    (p : BillingEvent → Bool) (quota : String → ℕ) (es : List BillingEvent)
    → any p (prune_spec quota es) ≡ true
    → any p es ≡ true
unfolding prune_spec
any-prune_spec p quota [] h = h
any-prune_spec p quota (e ∷ es) h = ground (arith, any-prune_spec p quota es)

-- Pruning makes no event up.
pub any-enqueued :
    (p : BillingEvent → Bool) (max_events : ℕ) (e : BillingEvent) (es : List BillingEvent)
    → any p (enqueued max_events e es) ≡ true
    → any p (e ∷ es) ≡ true
any-enqueued p max_events e es = any-prune_spec p (excess max_events (e ∷ es)) (e ∷ es)

-- The unsent events with a new one that is not sent in front.
pub keep_unsent-enqueued :
    (max_events : ℕ) (e : BillingEvent) (es : List BillingEvent)
    → is_sent e ≡ false
    → keep_if (λ d. not (is_sent d)) (enqueued max_events e es)
      ≡ e ∷ keep_if (λ d. not (is_sent d)) es
keep_unsent-enqueued max_events e es unsent =
    keep_unsent-prune_spec (excess max_events (e ∷ es)) (e ∷ es) ∙ rw unsent

is_pruned-none :
    (quota : String → ℕ) (e : BillingEvent) (es : List BillingEvent)
    → quota e.instance_id ≡ 0
    → is_pruned quota e es ≡ false
unfolding is_pruned
is_pruned-none quota e es none = ground arith

-- The events of an instance within the limit are left alone.
keep_instance-prune_spec :
    (quota : String → ℕ) (id : String) (es : List BillingEvent)
    → quota id ≡ 0
    → keep_if (λ d. str_eq d.instance_id id) (prune_spec quota es)
      ≡ keep_if (λ d. str_eq d.instance_id id) es
unfolding prune_spec
keep_instance-prune_spec quota id [] none = refl
keep_instance-prune_spec quota id (e ∷ es) none =
    keep_if-drop_or_keep (λ d. str_eq d.instance_id id) (is_pruned quota e es) e
      (prune_spec quota es)
    ∙ elim (Bool-cases (str_eq e.instance_id id)) [
      | inl same ↦ rw (
        same,
        is_pruned-none quota e es (ap quota ((eq_iff e.instance_id id).0 same) ∙ none),
        keep_instance-prune_spec quota id es none,
      )
      | inr other ↦ rw (other, keep_instance-prune_spec quota id es none)
    ]

-- Enqueueing an event of one instance leaves another that is within the limit alone.
pub keep_instance-enqueued :
    (max_events : ℕ) (e : BillingEvent) (id : String) (es : List BillingEvent)
    → str_eq e.instance_id id ≡ false
    → event_count id es ≤ max_events
    → keep_if (λ d. str_eq d.instance_id id) (enqueued max_events e es)
      ≡ keep_if (λ d. str_eq d.instance_id id) es
unfolding event_count
keep_instance-enqueued max_events e id es other fits =
    keep_instance-prune_spec (excess max_events (e ∷ es)) id (e ∷ es) (rw other (omega arith))
    ∙ rw other

module _ {W : Type 0} {c : Client W} {stored : W → BillingService} (storage : Storage c stored)
    (walks : Walks c) (max_events : ℕ) where
  walk-Covers :
      (es : List BillingEvent) (w : W) → All (Covers (c.walk (keys_of (instance_ids es)) w).0) es
  walk-Covers es w =
      Covers-self es (c.walk (keys_of (instance_ids es)) w).0
        (λ k has. walks (keys_of (instance_ids es)) w k ∙ any-keys_of k (instance_ids es) ∙ has)

  pub enqueue_event_lem :
      (e : BillingEvent) (svc : BillingService) (w : W)
      → (w' : W) × (enqueue_event c max_events e svc w
          ≡ (ok tt, record svc { events = enqueued max_events e svc.events }, w'))
  unfolding enqueue_event
  enqueue_event_lem e svc w =
      let (ids, w₁) = c.walk (keys_of (instance_ids (e ∷ svc.events))) w in
      let pruned : (prune_events_if_needed ids max_events (e ∷ svc.events)).0
          ≡ enqueued max_events e svc.events =
        prune_events_if_needed-prune_spec ids max_events (e ∷ svc.events)
          (walk-Covers (e ∷ svc.events) w) in
      (
        (c.status_update (record svc { events = enqueued max_events e svc.events }) w₁).1,
        ap (λ es. push_status c (record svc { events = es }) w₁) pruned
            ∙ push_status-eq storage (record svc { events = enqueued max_events e svc.events }) w₁,
      )
