-- ===== src/Billing/Queue.antt =====
-- Delivery of the queue: pkg/controller/billing/delivery.go.
pub mod Order
pub mod Drain
pub mod Refusal
pub mod Collision
use appcat.Common.{
  ℕ, ◌+◌, Bool, true, false, ◌&&◌, ◌||◌, String, List, [], ◌∷◌, Option, none, some, set, get_elem?,
  str_eq, ◌==◌, if◌then◌else◌,
}
use appcat.Billing.Types.{
  EventState, EventType, BillingEvent, BillingService, pending, sent, failed, superseded, resend,
  created, deleted, scaled, type_eq,
}
use appcat.Billing.Events.{FindEventOpts, find_event}
use appcat.Billing.Client.{
  ApiError, not_found, conflict, server_timeout, too_many_requests, service_unavailable,
  missing_instance_id, event_gone, index_out_of_range, Result, ok, err, InstanceEvent, Client, M,
  pure, push_status,
}

abbrev pub resend_opts : FindEventOpts
resend_opts = record { states = resend ∷ []; type = none }

abbrev pub failed_opts : FindEventOpts
failed_opts = record { states = failed ∷ []; type = none }

abbrev pub pending_delete_opts : FindEventOpts
pending_delete_opts = record { states = pending ∷ []; type = some deleted }

abbrev pub pending_opts : FindEventOpts
pending_opts = record { states = pending ∷ []; type = none }

abbrev or_else : {A : Type 0} → Option A → Option A → Option A
or_else (some a) o = some a
or_else none o = o

-- The four searches of processQueue, in their order.
unfoldable pub next_event : BillingService → Option (ℕ × BillingEvent)
next_event svc = or_else (find_event svc resend_opts) (
    or_else (find_event svc failed_opts)
      (or_else (find_event svc pending_delete_opts) (find_event svc pending_opts)))

-- The values of BillingEventType.
pub type_text : EventType → String
type_text created = "create"
type_text deleted = "delete"
type_text scaled = "scale"

unfoldable pub is_transient_api_error : ApiError → Bool
is_transient_api_error conflict = true
is_transient_api_error server_timeout = true
is_transient_api_error too_many_requests = true
is_transient_api_error service_unavailable = true
is_transient_api_error _ = false

-- `e.InstanceID == event.InstanceID && e.Type == event.Type && e.Timestamp == event.Timestamp`.
unfoldable pub same_key : BillingEvent → BillingEvent → Bool
unfolding type_eq
same_key e event =
    str_eq e.instance_id event.instance_id
    && type_eq e.type event.type
    && e.timestamp == event.timestamp

abbrev pub as_sent : ℕ → BillingEvent → BillingEvent
as_sent time e = record e { state = sent; last_attempt_time = time }

-- The loop of persistEventSent: the first event with the key is marked; `none` if there is none.
unfoldable pub mark_sent : BillingEvent → List BillingEvent → Option (List BillingEvent)
mark_sent event [] = none
mark_sent event (e ∷ es) =
    let rest = mark_sent event es in
    if same_key e event
    then some (as_sent event.last_attempt_time e ∷ es)
    else elim rest [ some es' ↦ some (e ∷ es') | none ↦ none ]

module _ {W : Type 0} (c : Client W) where
  persist_found : Option (List BillingEvent) → BillingService → W → Result BillingService × W
  persist_found none fresh w = (err event_gone, w)
  persist_found (some es) fresh w = c.status_update (record fresh { events = es }) w

  persist_fresh : BillingEvent → Result BillingService × W → Result BillingService × W
  unfolding persist_found
  persist_fresh event (err e, w) = (err e, w)
  persist_fresh event (ok fresh, w) = persist_found (mark_sent event fresh.events) fresh w

  pub persist_event_sent : BillingEvent → W → Result BillingService × W
  unfolding persist_fresh
  persist_event_sent event w = persist_fresh event (c.get w)

  -- The message of sendEventToOdoo.
  abbrev pub instance_event : BillingService → BillingEvent → InstanceEvent
  instance_event svc event = record {
    product_id = event.product_id;
    instance_id = event.instance_id;
    sales_order_id = svc.sales_order_id;
    item_description = event.item_description;
    item_group_description = event.item_group_description;
    event_type = type_text event.type;
    size = event.value;
    timestamp = c.format_time event.timestamp;
  }

  pub send_event_to_odoo : BillingService → BillingEvent → W → Result (Unit {0}) × W
  send_event_to_odoo svc event w =
      if str_eq event.instance_id ""
      then (err missing_instance_id, w)
      else c.send (instance_event svc event) w

  -- `_ = b.Status().Update(...)`: the error of the status update is dropped.
  return_after :
      ApiError → Result (Unit {0}) × BillingService × W → Result Bool × BillingService × W
  return_after e (_, svc, w) = (err e, svc, w)

  persisted : BillingService → Result BillingService × W → Result Bool × BillingService × W
  persisted svc (ok fresh, w) = (ok true, fresh, w)
  persisted svc (err e, w) = (err e, svc, w)

  abbrev as_failed : BillingEvent → BillingEvent
  as_failed event = record event { state = failed; retry_count = event.retry_count + 1 }

  after_send :
      ℕ → BillingEvent → BillingService → Result (Unit {0}) × W → Result Bool × BillingService × W
  unfolding return_after persisted
  after_send i event svc (err e, w) =
      return_after e (push_status c (record svc { events = set svc.events i (as_failed event) }) w)
  after_send i event svc (ok _, w) =
      persisted svc (c.on_error is_transient_api_error (persist_event_sent event) w)

  attempt : ℕ → Option BillingEvent → BillingService → ℕ × W → Result Bool × BillingService × W
  unfolding after_send
  attempt i none svc (now, w) = (err index_out_of_range, svc, w)
  attempt i (some e) svc (now, w) =
      let event = record e { last_attempt_time = now } in
      after_send i event svc (send_event_to_odoo svc event w)

  pub deliver_queued_event : ℕ → M W Bool
  unfolding attempt
  deliver_queued_event i svc w = attempt i (get_elem? svc.events i) svc (c.now w)

  deliver_next : Option (ℕ × BillingEvent) → M W Bool
  deliver_next none = pure false
  deliver_next (some (i, e)) = deliver_queued_event i

  -- processQueue: at most one event is sent; the result says whether one was.
  pub process_queue : M W Bool
  unfolding deliver_next
  process_queue svc w = deliver_next (next_event svc) svc w
