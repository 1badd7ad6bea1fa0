-- ===== src/Webhooks/Disk.antt =====
-- The check that a disk does not shrink: ValidateDiskDownsizing and getEffectiveDiskSize of
-- pkg/controller/webhooks/default_handler.go, with the plans of pkg/common/utils/plans.go. Quantities,
-- JSON and Kubernetes are parameters. Errors are kept without the texts that wrap them.
pub mod Size
pub mod Growth
use appcat.Common.{
  Bool, true, false, String, str_eq, List, [], ◌∷◌, Option, none, some, if◌then◌else◌,
}
use appcat.Common.Results.{Result, ok, err, Io, ◌>>=◌, pure, fail, expect, lookup, text_or_empty}
use Prim.Native.String.{◌++◌ as text_append}

pub data Error : Type 0 where
  not_found bad_quantity bad_plans bad_sidecars bad_number no_organization : Error
  other : String → Error

-- resource.Quantity of Kubernetes. `less a b` is "a.Cmp(b) < 0".
pub record Quantities (Q : Type 0) : Type 0 where
  pub parse_quantity : String → Option Q
  pub less : Q → Q → Bool
  pub is_zero : Q → Bool
  pub to_text : Q → String

pub record Plan : Type 0 where
  pub cpu : String
  pub disk : String
  pub memory : String

-- A plan that a Go map does not have.
abbrev pub no_plan : Plan
no_plan = record { cpu = ""; disk = ""; memory = "" }

pub record Resources (Q : Type 0) : Type 0 where
  pub cpu_requests : Q
  pub cpu_limits : Q
  pub memory_requests : Q
  pub memory_limits : Q
  pub disk : Q

-- What the check reads of a composite.
pub record Composite : Type 0 where
  pub plan : String
  pub disk : String

-- `get_config_map` takes a namespace and a name and gives the data. `unmarshal_plans` reads the JSON
-- of the plans, `to_lower` is that of Go's package strings.
pub record Outside (Q W : Type 0) : Type 0 where
  pub get_config_map : String → String → Io W Error (List (String × String))
  pub unmarshal_plans : String → Option (List (String × Plan))
  pub to_lower : String → String
  pub plans_namespace : String
  pub quantities : Quantities Q

pub data FieldError : Type 0 where
  invalid_size : Error → FieldError
  invalid_format : String → FieldError
  downsized : String → String → FieldError

abbrev pub plan_or_empty : Option Plan → Plan
plan_or_empty none = no_plan
plan_or_empty (some p) = p

module _ {Q W : Type 0} (o : Outside Q W) where
  unfoldable pub parse_plan : Plan → Io W Error (Resources Q)
  parse_plan p = do
    cpu ← expect bad_quantity (o.quantities.parse_quantity p.cpu)
    memory ← expect bad_quantity (o.quantities.parse_quantity p.memory)
    disk ← expect bad_quantity (o.quantities.parse_quantity p.disk)
    pure (record {
      cpu_requests = cpu;
      cpu_limits = cpu;
      memory_requests = memory;
      memory_limits = memory;
      disk = disk;
    })

  unfoldable pub convert_plan_to_resource : String → List (String × Plan) → Io W Error (Resources Q)
  convert_plan_to_resource plan plans = parse_plan (plan_or_empty (lookup plan plans))

  unfoldable pub fetch_plans_from_cluster : String → String → Io W Error (Resources Q)
  fetch_plans_from_cluster name plan = do
    contents ← o.get_config_map o.plans_namespace name
    plans ← expect bad_plans (o.unmarshal_plans (text_or_empty (lookup "plans" contents)))
    convert_plan_to_resource plan plans

  -- The disk of a plan; the empty text if it has none.
  unfoldable pub disk_text : Resources Q → String
  disk_text r = if o.quantities.is_zero r.disk then "" else o.quantities.to_text r.disk

  unfoldable pub get_effective_disk_size : Composite → String → Io W Error String
  get_effective_disk_size comp service =
      if str_eq comp.disk ""
      then (if str_eq comp.plan "" then pure "" else do
        r ← fetch_plans_from_cluster (text_append (o.to_lower service) "plans") comp.plan
        pure (disk_text r))
      else pure comp.disk

  unfoldable pub compare_parsed : String → String → Option Q → Option Q → Option FieldError
  compare_parsed old_size new_size none new = none
  compare_parsed old_size new_size (some old) none = some (invalid_format new_size)
  compare_parsed old_size new_size (some old) (some new) =
      if o.quantities.less new old then some (downsized old_size new_size) else none

  unfoldable pub compare_sizes : String → String → Option FieldError
  compare_sizes old_size new_size =
      if str_eq new_size ""
      then none
      else compare_parsed old_size new_size (o.quantities.parse_quantity old_size)
          (o.quantities.parse_quantity new_size)

  unfoldable pub with_new_size : String → Result Error String × W → Option FieldError × W
  with_new_size old_size (err e, w) = (some (invalid_size e), w)
  with_new_size old_size (ok new_size, w) = (compare_sizes old_size new_size, w)

  -- An old size that is not known, or not set, is not compared.
  unfoldable pub with_old_size :
      Composite → String → Result Error String × W → Option FieldError × W
  with_old_size new_comp service (err e, w) = (none, w)
  with_old_size new_comp service (ok old_size, w) =
      if str_eq old_size ""
      then (none, w)
      else with_new_size old_size (get_effective_disk_size new_comp service w)

  unfoldable pub validate_disk_downsizing :
      Composite → Composite → String → W → Option FieldError × W
  validate_disk_downsizing old_comp new_comp service w =
      with_old_size new_comp service (get_effective_disk_size old_comp service w)
