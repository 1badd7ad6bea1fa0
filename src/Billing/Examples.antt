-- ===== src/Billing/Examples.antt =====
-- Runs of the billing controller (pkg/controller/billing) against a server in memory.
mod Lifecycle
use appcat.Common.{
  ℕ, suc, ◌+◌, ◌-◌, ◌*◌, ◌≤◌, Bool, true, false, not, String, List, [], ◌∷◌, ◌++◌, Option, none,
  some, sym, ap, length, take, count_if, keep_if, All, str_eq, ◌≡◌, ◌≢◌, ◌↔◌, refl, arith,
  if◌then◌else◌, ◌⊎◌, inr, eq_iff,
}
use appcat.Common.Int.{pos}
use appcat.Billing.Types.{
  BillingEvent, BillingService, Condition, ItemSpec, EventState, EventType, pending, sent, failed,
  created, deleted, scaled,
}
use appcat.Billing.Events.{
  has_backlog, is_open, has_event_by_instance_id, has_event_with_value_by_instance_id,
  last_sent_value_for_instance_id, is_sent_size,
}
use appcat.Billing.Prune.{
  is_sent, event_count, is_prunable, events_to_remove, marks, prunable_indices, survivors, contains,
  prune_events_if_needed,
}
use appcat.Billing.Prune.Spec.{prune_events_if_needed_lem}
use appcat.Billing.Client.{
  Client, Result, ok, err, other, Storage, Hears, Accepts, Walks, Updates, InstanceEvent, ◌>>◌,
}
use appcat.Billing.Queue.{next_event, same_key, instance_event}
use appcat.Billing.Queue.Order.{IsNext, rank, next_event-Answers, next_event-has_backlog}
use appcat.Billing.Queue.Drain.{rounds, to_tell, rounds_drain}
use appcat.Billing.Queue.Refusal.{rounds-refused, Refuses}
use appcat.Billing.Queue.Collision.{newest_after, copies, rounds_collision}
use appcat.Billing.Conditions.{update_status}
use appcat.Billing.Conditions.Update.{condition, Shows, update_status_lem}
use appcat.Billing.Lifecycle.{
  instance_ids, event_for, handle_item_creation, handle_item_scaling, handle_deletion,
  should_remove_finalizer,
}
use appcat.Billing.Lifecycle.Enqueues.{unsent, IsDelete, Distinct, Covered}
use appcat.Billing.Lifecycle.Deletion.{handle_deletion_lem}
use appcat.Billing.Lifecycle.Items.{
  IsReported, handle_item_scaling_lost, readded_item_ignored, handle_item_creation_new,
  handle_item_scaling_new,
}
use appcat.Billing.Reconcile.{release_finalizer}
use appcat.Billing.Reconcile.Finalizer.{
  day, should_remove_finalizer_lem, should_remove_finalizer_wraps, release_finalizer_lem,
}

-- The object on the server, a clock that ticks at each reading, and the messages that were taken.
pub record Server : Type 0 where
  pub object : BillingService
  pub clock : ℕ
  pub received : List InstanceEvent

abbrev refused_by : Option String → String → Bool
refused_by none id = false
refused_by (some r) id = str_eq r id

abbrev answer_send : Bool → InstanceEvent → Server → Result (Unit {0}) × Server
answer_send true e w = (err (other "refused"), w)
answer_send false e w = (ok tt, record w { received = e ∷ w.received })

-- A server that fails no call; Odoo refuses at most one instance.
abbrev pub memory : Option String → Client Server
memory refuse = record {
  now = λ w. (w.clock, record w { clock = suc w.clock });
  walk = λ keys w. (keys, w);
  get = λ w. (ok w.object, w);
  update = λ svc w. (ok svc, record w { object = svc });
  status_update = λ svc w. (ok svc, record w { object = svc });
  send = λ e w. answer_send (refused_by refuse e.instance_id) e w;
  organization = λ name w. (ok (some "SO-1"), w);
  on_error = λ transient f w. f w;
  format_time = λ t. "2026-01-01T00:00:00Z";
  parse_time = λ s. some 7;
}

answer_send-object :
    (b : Bool) (e : InstanceEvent) (w : Server) → (answer_send b e w).1.object ≡ w.object
answer_send-object true e w = refl
answer_send-object false e w = refl

pub memory-Storage : (refuse : Option String) → Storage (memory refuse) (λ w. w.object)
memory-Storage refuse = record {
  now_keeps = λ w. refl;
  get_stored = λ w. refl;
  status_accepted = λ svc w. refl;
  status_stored = λ svc w. refl;
  send_keeps = λ e w. answer_send-object (refused_by refuse e.instance_id) e w;
  on_error_success = λ transient f w {svc} {w'} h. h;
}

answer_send-received :
    (b : Bool) (e : InstanceEvent) (w w' : Server)
    → answer_send b e w ≡ (ok tt, w')
    → w'.received ≡ e ∷ w.received
answer_send-received true e w w' h = cc
answer_send-received false e w w' h = sym (ap (λ r. r.1.received) h)

memory-Hears : (refuse : Option String) → Hears (memory refuse) (λ w. w.received)
memory-Hears refuse = record {
  now_hears = λ w. refl;
  status_hears = λ svc w. refl;
  send_hears = λ e w w' h. answer_send-received (refused_by refuse e.instance_id) e w w' h;
}

memory-Accepts : Accepts (memory none)
memory-Accepts e w = refl

pub memory-Walks : (refuse : Option String) → Walks (memory refuse)
memory-Walks refuse keys w k = refl

pub memory-Updates : (refuse : Option String) → Updates (memory refuse)
memory-Updates refuse svc w = refl

abbrev pub event : EventType → EventState → String → String → ℕ → BillingEvent
event t s id v time = record {
  type = t;
  product_id = "p";
  instance_id = id;
  value = v;
  item_description = "";
  item_group_description = "";
  timestamp = time;
  state = s;
  retry_count = 0;
  last_attempt_time = 0;
}

abbrev pub item : String → String → ItemSpec
item id v = record {
  product_id = "p";
  item_description = "";
  item_group_description = "";
  value = v;
  instance_id = id;
}

abbrev pub service : List ItemSpec → List BillingEvent → BillingService
service items events = record {
  name = "svc";
  generation = 1;
  deletion_timestamp = none;
  finalizer = true;
  resend_mode = none;
  creation_annotation = "2025-12-31T00:00:00Z";
  keep_after_deletion = pos 0;
  sales_order_id = "SO-1";
  organization = "org";
  items = items;
  events = events;
  conditions = [];
}

abbrev pub server : BillingService → Server
server svc = record { object = svc; clock = 100; received = [] }

-- Three sent events and a pending one of one instance, with a limit of two.
abbrev history : List BillingEvent
history =
    event scaled pending "a" "3" 4
    ∷ event scaled sent "a" "2" 3
    ∷ event scaled sent "a" "5" 2
    ∷ event created sent "a" "1" 1
    ∷ []

pruned_run :
    (prune_events_if_needed ("a" ∷ []) 2 history).0
    ≡ event scaled pending "a" "3" 4 ∷ event scaled sent "a" "2" 3 ∷ []
unfolding prune_events_if_needed events_to_remove marks event_count prunable_indices survivors
    contains
pruned_run = refl

prune_events_if_needed_lem_example :
    let left = (prune_events_if_needed ("a" ∷ []) 2 history).0 in
    (keep_if (λ e. not (is_sent e)) left ≡ keep_if (λ e. not (is_sent e)) history)
    × ((id : String)
        → (keep_if (is_prunable id) left
            ≡ take
                (count_if (is_prunable id) history - (event_count id history - 2))
                (keep_if (is_prunable id) history))
          × ((event_count id left ≤ 2) ⊎ (count_if (is_prunable id) left ≡ 0)))
prune_events_if_needed_lem_example =
    prune_events_if_needed_lem ("a" ∷ []) 2 history (refl, (refl, (refl, (refl, tt))))

-- A pending delete in front of a pending create of another instance.
abbrev two_pending : BillingService
two_pending = service [] (event deleted pending "a" "1" 9 ∷ event created pending "b" "2" 8 ∷ [])

rounds_drain_example :
    let r = rounds (memory none) 2 two_pending (server two_pending) in
    (has_backlog r.0 ≡ false)
    × (length r.0.events ≡ 2)
    × (r.1.object ≡ r.0)
    × ((p : InstanceEvent → Bool)
        → count_if p r.1.received
          ≡ count_if (to_tell (memory none) two_pending p) two_pending.events + 0)
unfolding same_key is_open
rounds_drain_example =
    rounds_drain (memory-Storage none) (memory-Hears none) memory-Accepts 2 two_pending
      (server two_pending) refl
      (record { keys = ((refl, tt), (tt, tt)); instances = (refl, (refl, tt)) }) refl

-- The failed event of an instance that Odoo refuses, with a pending one behind it.
abbrev failing : BillingService
failing = service [] (event created pending "b" "2" 8 ∷ event created failed "a" "1" 7 ∷ [])

failing-IsNext : IsNext failing.events 1 (event created failed "a" "1" 7)
failing-IsNext = record { at = refl; urgent = omega arith; first = omega arith; oldest = tt }

Refuses-a : Refuses (memory (some "a")) (event created failed "a" "1" 7)
Refuses-a svc d w named = (other "refused", rw named)

rounds-refused_example :
    (t : ℕ) × ((rounds (memory (some "a")) 3 failing (server failing)).0 ≡ record failing {
      events =
          event created pending "b" "2" 8
          ∷ record (event created failed "a" "1" 7) { retry_count = 3; last_attempt_time = t }
          ∷ [];
    })
rounds-refused_example =
    rounds-refused (memory-Storage (some "a")) 3 failing 1 (event created failed "a" "1" 7)
      (server failing) Refuses-a refl refl failing-IsNext

-- Two scale events of one instance at one time: the older has failed once, the newer is pending.
abbrev colliding : BillingService
colliding = service [] (event scaled pending "a" "3" 5 ∷ event scaled failed "a" "2" 5 ∷ [])

colliding-IsNext : IsNext colliding.events 1 (event scaled failed "a" "2" 5)
colliding-IsNext = record { at = refl; urgent = omega arith; first = omega arith; oldest = tt }

rounds_collision_example :
    let (svc, w) = rounds (memory none) 4 colliding (server colliding) in
    let older = event scaled failed "a" "2" 5 in
    (w.received ≡ copies 4 (instance_event (memory none) colliding older) ++ [])
    × ((t : ℕ) × (svc.events ≡ newest_after 4 t (event scaled pending "a" "3" 5) ∷ (older ∷ [])))
    × (next_event svc ≡ some (1, older))
unfolding same_key
rounds_collision_example =
    rounds_collision (memory-Storage none) (memory-Hears none) memory-Accepts 4 0 colliding
      (event scaled pending "a" "3" 5) (event scaled failed "a" "2" 5)
      (event scaled failed "a" "2" 5 ∷ []) (server colliding) refl refl refl refl colliding-IsNext

next_event-Answers_example :
    ((next_event failing ≡ none) × All (λ d. 4 ≤ rank d) failing.events)
    ⊎ ((i : ℕ) × (e : BillingEvent) × (next_event failing ≡ some (i, e))
        × IsNext failing.events i e)
next_event-Answers_example = next_event-Answers failing

next_event-has_backlog_example : (next_event failing ≡ none) ↔ (has_backlog failing ≡ false)
next_event-has_backlog_example = next_event-has_backlog failing

update_status_lem_example :
    (ds : List Condition) × (w' : Server) × (update_status (memory none) failing (server failing)
      ≡ (ok tt, record failing { conditions = ds }, w'))
    × Shows (condition ds "Ready") true "ReconcileSuccess" 1
    × Shows
        (condition ds "Synced")
        (not (has_backlog failing))
        (if not (has_backlog failing) then "AllEventsSent" else "PendingOrFailedEvents")
        1
    × (condition ds "Paused" ≡ none)
update_status_lem_example =
    update_status_lem (memory-Storage none) failing (server failing) "Paused" refl refl

-- An object that is being deleted, with one instance in the spec and another that was sent.
