-- ===== src/Billing/Lifecycle.antt =====
-- The events that a BillingService's items give rise to: enqueueEvent of
-- pkg/controller/billing/events.go, create.go, scale.go, delete.go and remove.go.
pub mod Enqueue
pub mod Enqueues
pub mod Deletion
pub mod Items
use appcat.Common.{
  ℕ, ◌+◌, ◌-◌, ◌*◌, ◌%◌, ◌^◌, min, Bool, true, false, not, String, List, [], ◌∷◌, ◌++◌, map, Option,
  none, some, str_eq, if◌then◌else◌, ◌&&◌, ◌||◌, any, keep_if, ◌==◌, leb, ltb,
}
use appcat.Common.Int.{ℤ, pos, negsuc, ◌+ℤ◌, leb_ℤ, neg_part, pos_part}
use appcat.Billing.Types.{
  BillingEvent, BillingService, ItemSpec, EventType, created, deleted, scaled, pending,
}
use appcat.Billing.Events.{
  has_event_by_instance_id, has_event_with_value_by_instance_id, last_sent_value_for_instance_id,
  last_observed_value_for_instance_id, is_sent_size,
}
use appcat.Billing.Prune.{prune_events_if_needed}
use appcat.Billing.Client.{
  Client, M, Result, ok, err, no_creation_timestamp, push_status, ◌>>=◌, ◌>>◌, pure,
}

-- The keys of a map that is filled from a list of texts: each once.
unfoldable pub keys_of : List String → List String
keys_of [] = []
keys_of (k ∷ ks) = let rest = keys_of ks in if any (str_eq k) ks then rest else k ∷ rest

abbrev pub instance_ids : List BillingEvent → List String
instance_ids es = map (λ e. e.instance_id) es

-- A pending event about an item.
abbrev pub event_for : EventType → ItemSpec → String → ℕ → BillingEvent
event_for t item value time = record {
  type = t;
  product_id = item.product_id;
  instance_id = item.instance_id;
  value = value;
  item_description = item.item_description;
  item_group_description = item.item_group_description;
  timestamp = time;
  state = pending;
  retry_count = 0;
  last_attempt_time = 0;
}

abbrev pub item_of : BillingEvent → ItemSpec
item_of e = record {
  product_id = e.product_id;
  item_description = e.item_description;
  item_group_description = e.item_group_description;
  value = e.value;
  instance_id = e.instance_id;
}

-- delTime + keepAfterDeletion * 24h in nanoseconds, with the wrap-around of time.Duration (int64).
unfoldable pub allowed_deletion_time : ℕ → ℕ → ℤ
allowed_deletion_time deleted_at days =
    let bits = (days * 86400000000000) % 2 ^ 64 in
    if ltb bits (2 ^ 63)
    then pos (deleted_at + bits)
    else pos deleted_at +ℤ negsuc (2 ^ 64 - bits - 1)

-- shouldRemoveFinalizer, at the time `now`: whether the finalizer may go, and else the time left
-- (time.Time.Sub stops at the largest Duration).
unfoldable pub should_remove_finalizer : ℤ → ℕ → ℕ → Bool × Option ℕ
should_remove_finalizer (negsuc n) deleted_at now = (true, none)
should_remove_finalizer (pos n) deleted_at now =
    let allowed = allowed_deletion_time deleted_at n in
    if n == 0
    then (true, none)
    else (if leb_ℤ allowed (pos now)
        then (true, none)
        else (false, some (min (pos_part allowed - now) (2 ^ 63 - 1))))

module _ {W : Type 0} (c : Client W) where
  pub instance_creation_timestamp : BillingService → Option ℕ
  instance_creation_timestamp svc =
      if str_eq svc.creation_annotation ""
      then none
      else elim (c.parse_time svc.creation_annotation) [
        | some t ↦ if t == 0 then none else some t
        | none ↦ none
      ]

module _ {W : Type 0} (c : Client W) (max_events : ℕ) where
  -- The event list with a new event, pruned; the map of instances is walked in the order `ids`.
  pub prepended : BillingEvent → BillingService → List String → BillingService
  prepended event svc ids = record svc {
    events = (prune_events_if_needed ids max_events (event ∷ svc.events)).0;
  }

  pub enqueue_event : BillingEvent → M W (Unit {0})
  unfolding prepended
  enqueue_event event svc w =
      let (ids, w') = c.walk (keys_of (instance_ids (event ∷ svc.events))) w in
      push_status c (prepended event svc ids) w'

  create_at : ItemSpec → Option ℕ → M W (Unit {0})
  create_at item none svc w = (err no_creation_timestamp, svc, w)
  create_at item (some t) svc w = enqueue_event (event_for created item item.value t) svc w

  pub handle_item_creation : ItemSpec → Bool → M W (Unit {0})
  unfolding create_at
  handle_item_creation item initial_creation svc w =
      let (now, w') = c.now w in
      let time = if initial_creation then instance_creation_timestamp c svc else some now in
      if has_event_by_instance_id svc created item.instance_id
      then (ok tt, svc, w)
      else create_at item time svc w'

  scale_from : ItemSpec → Option String → M W (Unit {0})
  scale_from item none svc w = (ok tt, svc, w)
  scale_from item (some last) svc w =
      let (now, w') = c.now w in
      if str_eq last item.value
      then (ok tt, svc, w)
      else (if has_event_with_value_by_instance_id svc scaled item.instance_id item.value
          then (ok tt, svc, w)
          else enqueue_event (event_for scaled item item.value now) svc w')

  pub handle_item_scaling : ItemSpec → M W (Unit {0})
  unfolding scale_from
  handle_item_scaling item svc w =
      scale_from item (last_sent_value_for_instance_id svc item.instance_id) svc w

  -- `seen` is the map of the instances that this run has enqueued a delete event for.
  pub enqueue_delete_if_needed : ItemSpec → ℕ → List String → M W (List String)
  enqueue_delete_if_needed item del_time seen svc w =
      let value = last_observed_value_for_instance_id svc item.instance_id item.value in
      let event = event_for deleted item value del_time in
      let enqueued = enqueue_event event >> pure (item.instance_id ∷ seen) in
      if any (str_eq item.instance_id) seen || has_event_by_instance_id svc deleted item.instance_id
      then (ok seen, svc, w)
      else enqueued svc w

  pub delete_items : ℕ → List ItemSpec → List String → M W (List String)
  delete_items del_time [] seen = pure seen
  delete_items del_time (item ∷ items) seen =
      enqueue_delete_if_needed item del_time seen >>= delete_items del_time items

  -- The loop over the events as they were when it began.
  pub delete_sent : ℕ → List BillingEvent → List String → M W (List String)
  delete_sent del_time [] seen = pure seen
  delete_sent del_time (e ∷ es) seen =
      let deleting = enqueue_delete_if_needed (item_of e) del_time seen in
      (if any (str_eq e.instance_id) seen || not (is_sent_size e) then pure seen else deleting)
      >>= delete_sent del_time es

  delete_spec_items : ℕ → M W (List String)
  delete_spec_items del_time svc w = delete_items del_time svc.items [] svc w

  delete_sent_events : ℕ → List String → M W (List String)
  delete_sent_events del_time seen svc w = delete_sent del_time svc.events seen svc w

  add_finalizer : M W (Unit {0})
  add_finalizer svc w = (ok tt, record svc { finalizer = true }, w)

  delete_all : Option ℕ → M W (Unit {0})
  unfolding add_finalizer delete_spec_items delete_sent_events
  delete_all none = pure tt
  delete_all (some del_time) = do
    seen ← delete_spec_items del_time
    _ ← delete_sent_events del_time seen
    add_finalizer

  pub handle_deletion : M W (Unit {0})
  unfolding delete_all
  handle_deletion svc w = delete_all svc.deletion_timestamp svc w

  -- `lastSent[id]` of handleRemovedItems: the newest sent create or scale event of the instance.
  pub last_sent_item : List BillingEvent → String → Option ItemSpec
  last_sent_item [] id = none
  last_sent_item (e ∷ es) id =
      let rest = last_sent_item es id in
      if is_sent_size e && str_eq e.instance_id id then some (item_of e) else rest

  remove_instance : ℕ → String → Option ItemSpec → M W (Unit {0})
  remove_instance now id none = pure tt
  remove_instance now id (some item) =
      enqueue_event (event_for deleted (record item { instance_id = id }) item.value now)

  -- The loop over `lastSent`, with the spec's instances and the events from which it was built.
  pub remove_all : List String → List BillingEvent → List String → M W (Unit {0})
  unfolding remove_instance
  remove_all current es [] = pure tt
  remove_all current es (id ∷ ids) =
      (λ svc w.
        let (now, w') = c.now w in
        if any (str_eq id) current || has_event_by_instance_id svc deleted id
        then (ok tt, svc, w)
        else remove_instance now id (last_sent_item es id) svc w')
      >> remove_all current es ids

  pub handle_removed_items : M W (Unit {0})
  handle_removed_items svc w =
      let (ids, w') = c.walk (keys_of (instance_ids (keep_if is_sent_size svc.events))) w in
      remove_all (map (λ item. item.instance_id) svc.items) svc.events ids svc w'
