-- ===== src/Quotas/Limits.antt =====
-- CheckQuotas of pkg/common/quotas/quotas.go and CheckResourcesAgainstQuotas of
-- pkg/common/utils/resources.go.
use appcat.Common.{
  ℕ, Bool, String, str_eq, List, [], ◌∷◌, length, Option, none, some, if◌then◌else◌,
}
use appcat.Common.Int.{ℤ, pos, leb_ℤ}
use appcat.Common.Results.{Result, ok, err, Io, ◌>>=◌, ◌>>◌, pure, fail, expect, lookup}
use appcat.Webhooks.Disk.{
  Error, not_found, bad_quantity, bad_number, no_organization, other, Resources,
}
use Prim.Native.String.{◌++◌ as text_append}
use appcat.Quotas.{
  StatusError, internal, bad_request, forbidden, invalid, Sidecar, Cluster, QuotaChecker, Check,
  org_label, default_max_namespaces, annotation, as_status, no_resources,
}
use appcat.Quotas.Sidecars.{get_default_resources, fetch_sidecars_from_cluster}

module _ {Q W : Type 0} (c : Cluster Q W) where
  -- A quota that is not set is the zero quantity.
  unfoldable pub quota_at : String → List (String × String) → Io W Error Q
  quota_at key annotations = elim (lookup key annotations) [
    | none ↦ pure c.amounts.zero_quantity
    | some text ↦ expect bad_quantity (c.plans.quantities.parse_quantity text)
  ]

  unfoldable pub get_namespace_quotas : String → Io W Error (Resources Q)
  get_namespace_quotas instance_namespace = do
    ns ← c.get_namespace instance_namespace
    cpu_requests ← quota_at (annotation "compute.requests.cpu") ns.annotations
    cpu_limits ← quota_at (annotation "compute.limits.cpu") ns.annotations
    memory_requests ← quota_at (annotation "compute.requests.memory") ns.annotations
    memory_limits ← quota_at (annotation "compute.limits.memory") ns.annotations
    disk ← quota_at (annotation "objects.requests.storage") ns.annotations
    pure (record {
      cpu_requests = cpu_requests;
      cpu_limits = cpu_limits;
      memory_requests = memory_requests;
      memory_limits = memory_limits;
      disk = disk;
    })

  unfoldable pub checks : Resources Q → Resources Q → Resources Q → List (Check Q)
  checks r quota fallback =
      record {
        name = "CPU requests";
        requested = r.cpu_requests;
        quota = quota.cpu_requests;
        fallback = fallback.cpu_requests;
      }
      ∷ record {
        name = "CPU limits";
        requested = r.cpu_limits;
        quota = quota.cpu_limits;
        fallback = fallback.cpu_limits;
      }
      ∷ record {
        name = "Memory requests";
        requested = r.memory_requests;
        quota = quota.memory_requests;
        fallback = fallback.memory_requests;
      }
      ∷ record {
        name = "Memory limits";
        requested = r.memory_limits;
        quota = quota.memory_limits;
        fallback = fallback.memory_limits;
      }
      ∷ record {
        name = "Disk";
        requested = r.disk;
        quota = quota.disk;
        fallback = c.amounts.new_quantity 1099511627776;
      }
      ∷ []

  unfoldable pub max_of : Check Q → Q
  max_of check = if c.plans.quantities.is_zero check.quota then check.fallback else check.quota

  unfoldable pub exceeds : Check Q → Bool
  exceeds check = c.plans.quantities.less (max_of check) check.requested

  unfoldable pub found_errs : List (Check Q) → List (String × Q × Q)
  found_errs [] = []
  found_errs (check ∷ rest) =
      let later = found_errs rest in
      if exceeds check then (check.name, max_of check, check.requested) ∷ later else later

  unfoldable pub check_against_resources :
      Resources Q → Resources Q → String → List (String × Sidecar) → List (String × Q × Q)
  check_against_resources r quota kind sidecars =
      found_errs (checks r quota (get_default_resources c kind sidecars))

  -- A namespace that is not there has no quotas.
  unfoldable pub or_no_quotas :
      Result Error (Resources Q) × W → Result (StatusError Q) (Resources Q) × W
  or_no_quotas (ok quota, w) = (ok quota, w)
  or_no_quotas (err not_found, w) = (ok (no_resources c.amounts), w)
  or_no_quotas (err e, w) = (err (internal e), w)

  unfoldable pub quotas_for :
      String → String → List (String × Sidecar) → Io W (StatusError Q) (Resources Q)
  quotas_for instance_namespace kind sidecars w =
      if str_eq instance_namespace ""
      then (ok (get_default_resources c kind sidecars), w)
      else or_no_quotas (get_namespace_quotas instance_namespace w)

  unfoldable pub sidecars_for : String → Io W (StatusError Q) (List (String × Sidecar))
  sidecars_for kind =
      if str_eq kind "VSHNPostgreSQL"
      then as_status internal (fetch_sidecars_from_cluster c "vshnpostgresqlplans")
      else pure []

  unfoldable pub refuse_if_any : List (String × Q × Q) → Io W (StatusError Q) (Unit {0})
  refuse_if_any [] = pure tt
  refuse_if_any (e ∷ es) = fail (invalid (e ∷ es))

  unfoldable pub check_resources_against_quotas :
      Resources Q → String → String → Io W (StatusError Q) (Unit {0})
  check_resources_against_quotas r instance_namespace kind = do
    sidecars ← sidecars_for kind
    quota ← quotas_for instance_namespace kind sidecars
    refuse_if_any (check_against_resources r quota kind sidecars)

  unfoldable pub get_org_from_namespace : String → Io W Error String
  get_org_from_namespace name = do
    ns ← c.get_namespace name
    expect no_organization (lookup org_label ns.labels)

  unfoldable pub parse_override : Option String → Io W Error (Option ℤ)
  parse_override none = pure none
  parse_override (some text) = do override ← expect bad_number (c.atoi text); pure (some override)

  unfoldable pub override_in :
      Result Error (List (String × String)) × W → Result Error (Option ℤ) × W
  override_in (ok contents, w) = parse_override (lookup "namespaceQuota" contents) w
  override_in (err not_found, w) = (ok none, w)
  override_in (err e, w) = (err e, w)

  unfoldable pub get_namespace_overrides : String → Io W Error (Option ℤ)
  get_namespace_overrides org w =
      override_in (c.plans.get_config_map "appuio-cloud" (text_append "override-" org) w)

  abbrev pub limit_of : Option ℤ → ℤ
  limit_of none = default_max_namespaces
  limit_of (some override) = override

  unfoldable pub compare_namespaces : ℕ → Option ℤ → Io W (StatusError Q) (Unit {0})
  compare_namespaces found override =
      if leb_ℤ (limit_of override) (pos found) then fail forbidden else pure tt

  unfoldable pub are_namespaces_within_quota : String → Io W (StatusError Q) (Unit {0})
  are_namespaces_within_quota org =
      if c.is_label_value org
      then (do
        namespaces ← as_status bad_request (c.list_namespaces org)
        override ← as_status internal (get_namespace_overrides org)
        compare_namespaces (length namespaces) override)
      else fail (bad_request (other org))

  unfoldable pub check_quotas : QuotaChecker Q → Io W (StatusError Q) (Unit {0})
  check_quotas q = do
    org ← as_status internal (get_org_from_namespace q.claim_namespace)
    are_namespaces_within_quota org
    check_resources_against_quotas q.requested_resources q.instance_namespace q.kind
