-- ===== src/Billing/Conditions.antt =====
-- The conditions of a BillingService: pkg/controller/billing/conditions.go.
pub mod Update
use appcat.Common.{
  ℕ, suc, Bool, true, false, not, String, List, [], ◌∷◌, ◌++◌, Option, none, some, str_eq,
  if◌then◌else◌, ◌&&◌, ◌||◌, set, get_elem?, any,
}
use appcat.Billing.Types.{Condition, BillingEvent, BillingService}
use appcat.Billing.Events.{is_open}
use appcat.Billing.Client.{Client, M, push_status, ◌>>=◌, ◌>>◌, pure, ok}

unfoldable pub find_condition_index : List Condition → String → Option ℕ
find_condition_index [] t = none
find_condition_index (d ∷ ds) t =
    let rest = find_condition_index ds t in
    if str_eq d.type t then some 0 else elim rest [ some i ↦ some (suc i) | none ↦ none ]

-- `==` on conditions' statuses.
abbrev pub same_status : Bool → Bool → Bool
same_status true b = b
same_status false b = not b

-- The time of the last transition is kept where status and reason are as before.
unfoldable pub keep_transition : Option Condition → Condition → Condition
keep_transition none d = d
keep_transition (some prev) d =
    if same_status prev.status d.status && str_eq prev.reason d.reason
    then record d { last_transition_time = prev.last_transition_time }
    else d

put_condition : List Condition → Option ℕ → Condition → List Condition
put_condition ds none d = ds ++ d ∷ []
put_condition ds (some i) d = set ds i (keep_transition (get_elem? ds i) d)

-- setCondition, at the time `now`.
unfoldable pub set_condition : ℕ → List Condition → Condition → List Condition
unfolding put_condition
set_condition now ds d =
    put_condition ds (find_condition_index ds d.type) (record d { last_transition_time = now })

-- The condition that setSyncedCondition sets.
unfoldable pub synced_condition : BillingService → Condition
synced_condition svc =
    let delivered = not (any is_open svc.events) in
    record {
      type = "Synced";
      status = delivered;
      reason = if delivered then "AllEventsSent" else "PendingOrFailedEvents";
      observed_generation = svc.generation;
      last_transition_time = 0;
    }

abbrev pub is_none : {A : Type 0} → Option A → Bool
is_none none = true
is_none (some a) = false

-- The condition that setReadyCondition sets.
unfoldable pub ready_condition : BillingService → Condition
ready_condition svc =
    let ready = is_none svc.deletion_timestamp in
    record {
      type = "Ready";
      status = ready;
      reason = if ready then "ReconcileSuccess" else "Deleting";
      observed_generation = svc.generation;
      last_transition_time = 0;
    }

module _ {W : Type 0} (c : Client W) where
  apply_condition : (BillingService → Condition) → M W (Unit {0})
  apply_condition condition svc w =
      let (now, w') = c.now w in
      (ok tt, record svc { conditions = set_condition now svc.conditions (condition svc) }, w')

  pub update_status : M W (Unit {0})
  unfolding apply_condition
  update_status = do
    apply_condition ready_condition
    apply_condition synced_condition
    push_status c
