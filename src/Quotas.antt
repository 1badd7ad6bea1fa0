-- ===== src/Quotas.antt =====
-- The quotas of an organization and of an instance: pkg/common/quotas/quotas.go with
-- pkg/common/utils/resources.go and sidecars.go, and checkQuotas of
-- pkg/controller/webhooks/default_handler.go. Quantities, JSON and Kubernetes are parameters; an int64 is
-- its 64-bit word. A Go map of sidecars is walked in the order of the list.
pub mod Sidecars
pub mod Limits
pub mod Sizes
pub mod Admission
pub mod Products
pub mod Requests
pub mod Annotations
mod Examples
use appcat.Common.{
  ℕ, zero, suc, ◌*◌, ◌%◌, ◌^◌, Bool, true, false, not, String, str_eq, List, [], ◌∷◌, ◌++◌, length,
  keep_if, Option, none, some, if◌then◌else◌,
}
use appcat.Common.Int.{ℤ, pos, negsuc, leb_ℤ}
use appcat.Common.Text.{contains_text}
use appcat.Common.Results.{
  Result, ok, err, Io, ◌>>=◌, ◌>>◌, pure, fail, expect, lookup, text_or_empty,
}
use appcat.Webhooks.Disk.{
  Error, not_found, bad_quantity, bad_sidecars, bad_number, no_organization, other, Quantities,
  Resources, fetch_plans_from_cluster,
}
use appcat.Webhooks.Disk.{Outside as Plans}
use Prim.Native.String.{◌++◌ as text_append}

-- An answer of the API server to the user.
pub data StatusError (Q : Type 0) : Type 0 where
  internal bad_request : Error → StatusError Q
  forbidden : StatusError Q
  invalid_sizes : List String → StatusError Q
  invalid : List (String × Q × Q) → StatusError Q

pub record Namespace : Type 0 where
  pub labels : List (String × String)
  pub annotations : List (String × String)

pub record Sidecar : Type 0 where
  pub limits_cpu : String
  pub limits_memory : String
  pub requests_cpu : String
  pub requests_memory : String

-- Further operations of resource.Quantity, on 64-bit words: Value, MilliValue, Set, SetMilli, Add,
-- NewQuantity and NewMilliQuantity.
pub record Amounts (Q : Type 0) : Type 0 where
  pub zero_quantity : Q
  pub value : Q → ℕ
  pub milli_value : Q → ℕ
  pub set : Q → ℕ → Q
  pub set_milli : Q → ℕ → Q
  pub add : Q → Q → Q
  pub new_quantity : ℕ → Q
  pub new_milli_quantity : ℕ → Q

-- `list_namespaces` lists by the label of the organization, and `is_label_value` is the check that
-- labels.NewRequirement makes.
pub record Cluster (Q W : Type 0) : Type 0 where
  pub plans : Plans Q W
  pub amounts : Amounts Q
  pub get_namespace : String → Io W Error Namespace
  pub list_namespaces : String → Io W Error (List String)
  pub unmarshal_sidecars : String → Option (List (String × Sidecar))
  pub atoi : String → Option ℤ
  pub is_label_value : String → Bool

pub record QuotaChecker (Q : Type 0) : Type 0 where
  pub requested_resources : Resources Q
  pub instance_namespace : String
  pub claim_namespace : String
  pub kind : String
  pub instances : ℤ

-- What the webhook reads of the size of a composite.
pub record Size : Type 0 where
  pub plan : String
  pub cpu : String
  pub memory : String
  pub requests_cpu : String
  pub requests_memory : String
  pub disk : String

-- One line of the table in checkAgainstResources.
pub record Check (Q : Type 0) : Type 0 where
  pub name : String
  pub requested : Q
  pub quota : Q
  pub fallback : Q

abbrev pub org_label : String
org_label = "appuio.io/organization"

abbrev pub default_max_namespaces : ℤ
default_max_namespaces = pos 25

abbrev pub annotation : String → String
annotation resource = text_append "resourcequota.appuio.io/organization-" resource

-- An error, as an answer to the user.
abbrev pub with_status :
    {Q W A : Type 0} → (Error → StatusError Q) → Result Error A × W → Result (StatusError Q) A × W
with_status f (ok a, w) = (ok a, w)
with_status f (err e, w) = (err (f e), w)

abbrev pub as_status :
    {Q W A : Type 0} → (Error → StatusError Q) → Io W Error A → Io W (StatusError Q) A
as_status f m w = with_status f (m w)

-- A product of int64 wraps around.
unfoldable pub times : ℕ → ℕ → ℕ
times a b = a * b % 2 ^ 64

module _ {Q : Type 0} (a : Amounts Q) where
  unfoldable pub multiply : ℕ → Resources Q → Resources Q
  multiply i r = record {
    cpu_requests = a.set_milli r.cpu_requests (times (a.milli_value r.cpu_requests) i);
    cpu_limits = a.set_milli r.cpu_limits (times (a.milli_value r.cpu_limits) i);
    memory_requests = a.set r.memory_requests (times (a.value r.memory_requests) i);
    memory_limits = a.set r.memory_limits (times (a.value r.memory_limits) i);
    disk = a.set r.disk (times (a.value r.disk) i);
  }

  unfoldable pub multiply_by : ℤ → Resources Q → Resources Q
  multiply_by (negsuc n) r = r
  multiply_by (pos zero) r = r
  multiply_by (pos (suc n)) r = multiply (suc n) r

  abbrev pub no_resources : Resources Q
  no_resources = record {
    cpu_requests = a.zero_quantity;
    cpu_limits = a.zero_quantity;
    memory_requests = a.zero_quantity;
    memory_limits = a.zero_quantity;
    disk = a.zero_quantity;
  }

  unfoldable pub add_resources : Resources Q → Resources Q → Resources Q
  add_resources r s = record {
    cpu_requests = a.add r.cpu_requests s.cpu_requests;
    cpu_limits = a.add r.cpu_limits s.cpu_limits;
    memory_requests = a.add r.memory_requests s.memory_requests;
    memory_limits = a.add r.memory_limits s.memory_limits;
    disk = a.add r.disk s.disk;
  }

  unfoldable pub add_sidecar_sum : ℕ → Resources Q → Resources Q → Resources Q
  add_sidecar_sum instances s r = record {
    cpu_requests =
        a.add r.cpu_requests
          (a.new_milli_quantity (times (a.milli_value s.cpu_requests) instances));
    cpu_limits =
        a.add r.cpu_limits (a.new_milli_quantity (times (a.milli_value s.cpu_limits) instances));
    memory_requests =
        a.add r.memory_requests (a.new_quantity (times (a.value s.memory_requests) instances));
    memory_limits =
        a.add r.memory_limits (a.new_quantity (times (a.value s.memory_limits) instances));
    disk = r.disk;
  }

  unfoldable pub default_resources : Resources Q
  default_resources = record {
    cpu_requests = a.new_milli_quantity 5000;
    cpu_limits = a.new_milli_quantity 5000;
    memory_requests = a.new_quantity 23622320128;
    memory_limits = a.new_quantity 23622320128;
    disk = a.zero_quantity;
  }
