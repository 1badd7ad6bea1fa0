-- ===== src/Quotas/Sidecars.antt =====
-- The resources of the sidecars (pkg/common/utils/sidecars.go) and the default quotas
-- (pkg/common/utils/resources.go).
use appcat.Common.{String, List, [], ◌∷◌, if◌then◌else◌}
use appcat.Common.Text.{contains_text}
use appcat.Common.Results.{Result, ok, err, Io, ◌>>=◌, pure, expect, lookup, text_or_empty}
use appcat.Webhooks.Disk.{Error, bad_quantity, bad_sidecars, Resources}
use appcat.Quotas.{
  Sidecar, Cluster, no_resources, add_resources, add_sidecar_sum, default_resources,
}

module _ {Q W : Type 0} (c : Cluster Q W) where
  -- No call of these two reaches the outside.
  unfoldable pub convert_sidecar_to_resource : Sidecar → Io (Unit {0}) Error (Resources Q)
  convert_sidecar_to_resource s = do
    cpu_requests ← expect bad_quantity (c.plans.quantities.parse_quantity s.requests_cpu)
    cpu_limits ← expect bad_quantity (c.plans.quantities.parse_quantity s.limits_cpu)
    memory_requests ← expect bad_quantity (c.plans.quantities.parse_quantity s.requests_memory)
    memory_limits ← expect bad_quantity (c.plans.quantities.parse_quantity s.limits_memory)
    pure (record {
      cpu_requests = cpu_requests;
      cpu_limits = cpu_limits;
      memory_requests = memory_requests;
      memory_limits = memory_limits;
      disk = c.amounts.zero_quantity;
    })

  unfoldable pub add_sidecars :
      Resources Q → List (String × Sidecar) → Io (Unit {0}) Error (Resources Q)
  add_sidecars total [] = pure total
  add_sidecars total ((name, s) ∷ sidecars) = do
    r ← convert_sidecar_to_resource s
    add_sidecars (add_resources c.amounts total r) sidecars

  unfoldable pub get_all_sidecars_resources :
      List (String × Sidecar) → Io (Unit {0}) Error (Resources Q)
  get_all_sidecars_resources sidecars = add_sidecars (no_resources c.amounts) sidecars

  -- With an error the sum of the sidecars is zero, and counts once.
  unfoldable pub with_sidecars : Result Error (Resources Q) × Unit {0} → Resources Q → Resources Q
  with_sidecars (ok s, u) r = add_sidecar_sum c.amounts 2 s r
  with_sidecars (err e, u) r = add_sidecar_sum c.amounts 1 (no_resources c.amounts) r

  unfoldable pub get_default_resources : String → List (String × Sidecar) → Resources Q
  get_default_resources kind sidecars =
      if contains_text kind "VSHNPostgreSQL"
      then with_sidecars (get_all_sidecars_resources sidecars tt) (default_resources c.amounts)
      else default_resources c.amounts

  unfoldable pub fetch_sidecars_from_cluster : String → Io W Error (List (String × Sidecar))
  fetch_sidecars_from_cluster name = do
    contents ← c.plans.get_config_map c.plans.plans_namespace name
    expect bad_sidecars (c.unmarshal_sidecars (text_or_empty (lookup "sideCars" contents)))
