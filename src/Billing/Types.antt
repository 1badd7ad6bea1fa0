-- ===== src/Billing/Types.antt =====
-- The billing resource: apis/vshn/v1/billing_service.go and pkg/controller/billing/types.go.
-- The CRD admits only the listed texts as an event's state and type, so both are enums here; a time
-- is the number of nanoseconds since the zero time, which is 0.
use appcat.Common.{ℕ, String, Bool, true, false, List, Option}
use appcat.Common.Int.{ℤ}

pub data EventState : Type 0 where
  pending sent failed superseded resend : EventState

pub data EventType : Type 0 where
  created deleted scaled : EventType

-- `==` on the texts of the states.
unfoldable pub state_eq : EventState → EventState → Bool
state_eq pending pending = true
state_eq sent sent = true
state_eq failed failed = true
state_eq superseded superseded = true
state_eq resend resend = true
state_eq _ _ = false

unfoldable pub type_eq : EventType → EventType → Bool
type_eq created created = true
type_eq deleted deleted = true
type_eq scaled scaled = true
type_eq _ _ = false

pub record ItemSpec : Type 0 where
  pub product_id : String
  pub item_description : String
  pub item_group_description : String
  pub value : String
  pub instance_id : String

pub record BillingEvent : Type 0 where
  pub type : EventType
  pub product_id : String
  pub instance_id : String
  pub value : String
  pub item_description : String
  pub item_group_description : String
  pub timestamp : ℕ
  pub state : EventState
  pub retry_count : ℕ
  pub last_attempt_time : ℕ

-- metav1.Condition, with the fields that the controller sets. `status` is ConditionTrue.
pub record Condition : Type 0 where
  pub type : String
  pub status : Bool
  pub reason : String
  pub observed_generation : ℕ
  pub last_transition_time : ℕ

-- Spec, status and the metadata that the controller reads. `none` is a deletion timestamp that is
-- not set; `resend_mode` and `creation_annotation` are the two annotations.
pub record BillingService : Type 0 where
  pub name : String
  pub generation : ℕ
  pub deletion_timestamp : Option ℕ
  pub finalizer : Bool
  pub resend_mode : Option String
  pub creation_annotation : String
  pub keep_after_deletion : ℤ
  pub sales_order_id : String
  pub organization : String
  pub items : List ItemSpec
  pub events : List BillingEvent
  pub conditions : List Condition
