-- ===== src/Quotas/Sizes.antt =====
-- checkQuotas of pkg/controller/webhooks/default_handler.go: the resources that a composite asks for.
use appcat.Common.{
  Bool, true, false, String, str_eq, List, [], ◌∷◌, ◌++◌, Option, none, some, if◌then◌else◌,
}
use appcat.Common.Int.{ℤ}
use appcat.Common.Results.{Io, ◌>>=◌, pure, fail}
use appcat.Webhooks.Disk.{Resources, fetch_plans_from_cluster}
use appcat.Quotas.{
  StatusError, internal, invalid_sizes, Cluster, Size, as_status, multiply_by, no_resources,
}
use appcat.Quotas.Limits.{check_quotas as check_organization}
use Prim.Native.String.{◌++◌ as text_append}

-- What the webhook reads of a composite.
pub record Composite : Type 0 where
  pub size : Size
  pub instances : ℤ
  pub namespace : String
  pub instance_namespace : String

pub record Handler : Type 0 where
  pub name : String
  pub kind : String

-- The paths of the fields that the user sees.
pub record Paths : Type 0 where
  pub cpu_limits : String
  pub cpu_requests : String
  pub memory_limits : String
  pub memory_requests : String
  pub disk : String

abbrev pub base_path : String → String
base_path child = text_append "spec.parameters.size." child

unfoldable pub add_paths_to_resources : Bool → Paths
add_paths_to_resources true = record {
  cpu_limits = base_path "CPULimits";
  cpu_requests = base_path "CPURequests";
  memory_limits = base_path "memoryLimits";
  memory_requests = base_path "memoryLimits";
  disk = base_path "disk";
}
add_paths_to_resources false = record {
  cpu_limits = base_path "CPU";
  cpu_requests = base_path "Requests.CPU";
  memory_limits = base_path "Memory";
  memory_requests = base_path "Requests.Memory";
  disk = base_path "disk";
}

module _ {Q W : Type 0} (c : Cluster Q W) (h : Handler) where
  -- A size that is no quantity leaves the zero quantity and an error.
  unfoldable pub parse_resource : String → Option Q → Q × List String
  parse_resource path none = (c.amounts.zero_quantity, path ∷ [])
  parse_resource path (some q) = (q, [])

  -- A size that is not set leaves the resource of the plan.
  unfoldable pub overwrite : String → String → Q → Q × List String
  overwrite path text old =
      if str_eq text ""
      then (old, [])
      else parse_resource path (c.plans.quantities.parse_quantity text)

  unfoldable pub overwrite_all : Paths → Size → Resources Q → Resources Q × List String
  overwrite_all paths s r =
      let (cpu_limits, errs₁) = overwrite paths.cpu_limits s.cpu r.cpu_limits in
      let (cpu_requests, errs₂) = overwrite paths.cpu_requests s.requests_cpu r.cpu_requests in
      let (memory_limits, errs₃) = overwrite paths.memory_limits s.memory r.memory_limits in
      let (memory_requests, errs₄) =
        overwrite paths.memory_requests s.requests_memory r.memory_requests in
      let (disk, errs₅) = overwrite paths.disk s.disk r.disk in
      (
        record {
          cpu_requests = cpu_requests;
          cpu_limits = cpu_limits;
          memory_requests = memory_requests;
          memory_limits = memory_limits;
          disk = disk;
        },
        errs₁ ++ (errs₂ ++ (errs₃ ++ (errs₄ ++ errs₅))),
      )

  unfoldable pub resources_of_plan : String → Io W (StatusError Q) (Resources Q)
  resources_of_plan plan =
      if str_eq plan ""
      then pure (no_resources c.amounts)
      else as_status internal
          (fetch_plans_from_cluster c.plans (text_append "vshn" (text_append h.name "plans")) plan)

  unfoldable pub check_sizes :
      Composite → Resources Q × List String → Io W (StatusError Q) (Unit {0})
  check_sizes comp (r, e ∷ es) = fail (invalid_sizes (e ∷ es))
  check_sizes comp (r, []) = check_organization c (record {
    requested_resources = multiply_by c.amounts comp.instances r;
    instance_namespace = comp.instance_namespace;
    claim_namespace = comp.namespace;
    kind = h.kind;
    instances = comp.instances;
  })

  unfoldable pub check_quotas : Composite → Io W (StatusError Q) (Unit {0})
  check_quotas comp = do
    r ← resources_of_plan comp.size.plan
    check_sizes comp (overwrite_all (add_paths_to_resources (str_eq h.name "redis")) comp.size r)
