-- ===== src/Billing/Events.antt =====
-- Searching the event list, newest first: pkg/controller/billing/events.go.
use appcat.Common.{
  ℕ, suc, Bool, true, ◌&&◌, ◌||◌, not, String, List, [], ◌∷◌, Option, none, some, any, str_eq,
  if◌then◌else◌,
}
use appcat.Billing.Types.{
  EventState, EventType, BillingEvent, BillingService, sent, superseded, created, scaled, state_eq,
  type_eq,
}

-- findEventOpts; a nil `Type` is `none`.
pub record FindEventOpts : Type 0 where
  pub states : List EventState
  pub type : Option EventType

in_states : EventState → List EventState → Bool
unfolding state_eq
in_states s [] = true
in_states s (t ∷ ts) = any (λ u. state_eq u s) (t ∷ ts)

has_type : EventType → Option EventType → Bool
unfolding type_eq
has_type t none = true
has_type t (some u) = type_eq t u

-- The two `continue` guards of the loop in findEvent: an empty state set admits every state.
unfoldable pub opts_match : FindEventOpts → BillingEvent → Bool
unfolding in_states has_type
opts_match opts e = in_states e.state opts.states && has_type e.type opts.type

-- The loop of findEvent from the last index down: a match further back in the list is met first.
unfoldable pub find_from : (BillingEvent → Bool) → ℕ → List BillingEvent → Option (ℕ × BillingEvent)
find_from p i [] = none
find_from p i (e ∷ es) = elim (find_from p (suc i) es) [
  | some r ↦ some r
  | none ↦ if p e then some (i, e) else none
]

-- findEvent: the oldest event that matches, with its index.
unfoldable pub find_event : BillingService → FindEventOpts → Option (ℕ × BillingEvent)
unfolding find_from opts_match
find_event svc opts = find_from (opts_match opts) 0 svc.events

unfoldable pub has_event_by_instance_id : BillingService → EventType → String → Bool
unfolding type_eq
has_event_by_instance_id svc t id =
    any (λ e. type_eq e.type t && str_eq e.instance_id id) svc.events

unfoldable pub has_event_with_value_by_instance_id :
    BillingService → EventType → String → String → Bool
unfolding type_eq
has_event_with_value_by_instance_id svc t id v =
    any (λ e. type_eq e.type t && str_eq e.instance_id id && str_eq e.value v) svc.events

-- A sent create or scale event: what Odoo has been told of an instance's size.
unfoldable pub is_sent_size : BillingEvent → Bool
unfolding state_eq type_eq
is_sent_size e = state_eq e.state sent && (type_eq e.type scaled || type_eq e.type created)

unfoldable pub last_sent_value : List BillingEvent → String → Option String
unfolding is_sent_size
last_sent_value [] id = none
last_sent_value (e ∷ es) id =
    let rest = last_sent_value es id in
    if is_sent_size e && str_eq e.instance_id id then some e.value else rest

unfoldable pub last_sent_value_for_instance_id : BillingService → String → Option String
unfolding last_sent_value
last_sent_value_for_instance_id svc id = last_sent_value svc.events id

unfoldable pub last_observed_value_for_instance_id : BillingService → String → String → String
unfolding last_sent_value_for_instance_id
last_observed_value_for_instance_id svc id fallback =
    elim (last_sent_value_for_instance_id svc id) [ some v ↦ v | none ↦ fallback ]

-- Neither sent nor superseded.
unfoldable pub is_open : BillingEvent → Bool
unfolding state_eq
is_open e = not (state_eq e.state sent) && not (state_eq e.state superseded)

unfoldable pub has_backlog : BillingService → Bool
unfolding is_open
has_backlog svc = any is_open svc.events
