-- ===== src/Billing/Prune.antt =====
-- pruneEventsIfNeeded of pkg/controller/billing/events.go. The source walks a Go map, in an order
-- that is not fixed: here the walk is over a list `ids` of the map's keys, in any order.
pub mod Marks
pub mod Spec
use appcat.Common.{
  ℕ, zero, suc, ◌+◌, ◌-◌, min, Bool, true, false, ◌&&◌, ◌||◌, not, String, List, [], ◌∷◌, ◌++◌,
  length, take, count_if, any, leb, ltb, ◌==◌, str_eq, if◌then◌else◌,
}
use appcat.Billing.Types.{BillingEvent, sent, state_eq}

unfoldable pub is_sent : BillingEvent → Bool
unfolding state_eq
is_sent e = state_eq e.state sent

-- eventCountPerInstance[id].
unfoldable pub event_count : String → List BillingEvent → ℕ
event_count id = count_if (λ e. str_eq e.instance_id id)

-- The sent events of one instance, which alone may be pruned.
unfoldable pub is_prunable : String → BillingEvent → Bool
unfolding is_sent
is_prunable id e = str_eq e.instance_id id && is_sent e

-- The loop from the last index down to `i`, the index of the list's head: oldest first.
unfoldable pub prunable_indices : String → ℕ → List BillingEvent → List ℕ
unfolding is_prunable
prunable_indices id i [] = []
prunable_indices id i (e ∷ es) =
    prunable_indices id (suc i) es ++ (if is_prunable id e then i ∷ [] else [])

-- The indices that one turn of the outer loop adds to `eventsToRemove`.
unfoldable pub marks : ℕ → List BillingEvent → String → List ℕ
marks max_events es id =
    let current = event_count id es in
    let prunable = prunable_indices id 0 es in
    if leb current max_events
    then []
    else take (min (current - max_events) (length prunable)) prunable

unfoldable pub events_to_remove : ℕ → List BillingEvent → List String → List ℕ
events_to_remove max_events es [] = []
events_to_remove max_events es (id ∷ ids) =
    marks max_events es id ++ events_to_remove max_events es ids

-- `eventsToRemove[i]`.
unfoldable pub contains : ℕ → List ℕ → Bool
contains i = any (λ j. j == i)

-- The rebuilt list.
unfoldable pub survivors : List ℕ → ℕ → List BillingEvent → List BillingEvent
survivors remove i [] = []
survivors remove i (e ∷ es) =
    let rest = survivors remove (suc i) es in if contains i remove then rest else e ∷ rest

-- pruneEventsIfNeeded: the list that is left, and the number of events that were pruned.
unfoldable pub prune_events_if_needed : List String → ℕ → List BillingEvent → List BillingEvent × ℕ
prune_events_if_needed ids max_events es =
    let remove = events_to_remove max_events es ids in
    let total = length remove in if total == 0 then (es, 0) else (survivors remove 0 es, total)
