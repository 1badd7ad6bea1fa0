-- ===== src/Quotas/Annotations.antt =====
-- AddNamespaceQuotas of pkg/common/quotas/quotas.go: the quotas that the namespace of an instance gets.
use appcat.Common.{String, str_eq, List, [], ◌∷◌, ◌++◌, All, Option, none, some, ◌≡◌, if◌then◌else◌}
use appcat.Common.Maps.{fill, or_else}
use appcat.Common.Results.{lookup}
use appcat.Webhooks.Disk.{Resources}
use appcat.Quotas.{Sidecar, Cluster, annotation}
use appcat.Quotas.Sidecars.{get_default_resources}
use Prim.Native.String.{◌++◌ as text_append}

abbrev pub active_deadline_override : String
active_deadline_override = "appuio.io/active-deadline-seconds-override"

abbrev pub default_active_deadline_seconds : String
default_active_deadline_seconds = "21600"

abbrev storage_class_quota : String → String
storage_class_quota storage_class =
    text_append "\""
      (text_append storage_class ".storageclass.storage.k8s.io/requests.storage\": \"100Gi\"")

unfoldable pub get_exoscale_storage_class_quota : String
get_exoscale_storage_class_quota = text_append "{" (
    text_append (storage_class_quota "rbd-storagepool-cluster")
      (text_append ", " (text_append (storage_class_quota "cephfs-fspool-cluster") "}")))

abbrev pub storage_classes : String
storage_classes = "resourcequota.appuio.io/organization-objects.storageclasses"

abbrev pub storage_default : String → Option String
storage_default cloud_provider =
    if str_eq cloud_provider "exoscale" then some get_exoscale_storage_class_quota else none

-- What a list of keys and defaults says of the annotations before and after.
abbrev pub AllFilled :
    List (String × String) → List (String × String) → List (String × String) → Type 0
AllFilled table before after =
    All (λ d. lookup d.0 after ≡ or_else (lookup d.0 before) (some d.1)) table

module _ {Q W : Type 0} (c : Cluster Q W) where
  -- The annotations with their values for the default resources `r`.
  unfoldable pub quota_annotations : Resources Q → List (String × String)
  quota_annotations r =
      (
        annotation "objects.requests.storage",
        c.plans.quantities.to_text (c.amounts.new_quantity 1099511627776),
      )
      ∷ (annotation "compute.requests.cpu", c.plans.quantities.to_text r.cpu_requests)
      ∷ (annotation "compute.limits.cpu", c.plans.quantities.to_text r.cpu_limits)
      ∷ (annotation "compute.requests.memory", c.plans.quantities.to_text r.memory_requests)
      ∷ (annotation "compute.limits.memory", c.plans.quantities.to_text r.memory_limits)
      ∷ (annotation "compute-terminating.requests.cpu", c.plans.quantities.to_text r.cpu_requests)
      ∷ (annotation "compute-terminating.limits.cpu", c.plans.quantities.to_text r.cpu_limits)
      ∷ (
        annotation "compute-terminating.requests.memory",
        c.plans.quantities.to_text r.memory_requests,
      )
      ∷ (annotation "compute-terminating.limits.memory", c.plans.quantities.to_text r.memory_limits)
      ∷ (active_deadline_override, default_active_deadline_seconds)
      ∷ []

  unfoldable pub storage_annotations : String → List (String × String)
  storage_annotations cloud_provider =
      if str_eq cloud_provider "exoscale"
      then (annotation "objects.storageclasses", get_exoscale_storage_class_quota) ∷ []
      else []

  unfoldable pub default_annotations :
      List (String × Sidecar) → String → String → List (String × String)
  default_annotations sidecars kind cloud_provider =
      quota_annotations (get_default_resources c kind sidecars)
      ++ storage_annotations cloud_provider

  -- Each `if _, ok := annotations[key]; !ok` is one step of `fill`.
  unfoldable pub add_namespace_quotas :
      List (String × Sidecar) → String → String → List (String × String) → List (String × String)
  add_namespace_quotas sidecars kind cloud_provider annotations =
      fill (default_annotations sidecars kind cloud_provider) annotations

  -- The annotations of the quotas, by their full names, with the texts of the default amounts.
  abbrev pub quota_table : Resources Q → List (String × String)
  quota_table r =
      let text = c.plans.quantities.to_text in
      (
        "resourcequota.appuio.io/organization-objects.requests.storage",
        text (c.amounts.new_quantity 1099511627776),
      )
      ∷ ("resourcequota.appuio.io/organization-compute.requests.cpu", text r.cpu_requests)
      ∷ ("resourcequota.appuio.io/organization-compute.limits.cpu", text r.cpu_limits)
      ∷ ("resourcequota.appuio.io/organization-compute.requests.memory", text r.memory_requests)
      ∷ ("resourcequota.appuio.io/organization-compute.limits.memory", text r.memory_limits)
      ∷ (
        "resourcequota.appuio.io/organization-compute-terminating.requests.cpu",
        text r.cpu_requests,
      )
      ∷ ("resourcequota.appuio.io/organization-compute-terminating.limits.cpu", text r.cpu_limits)
      ∷ (
        "resourcequota.appuio.io/organization-compute-terminating.requests.memory",
        text r.memory_requests,
      )
      ∷ (
        "resourcequota.appuio.io/organization-compute-terminating.limits.memory",
        text r.memory_limits,
      )
      ∷ ("appuio.io/active-deadline-seconds-override", "21600")
      ∷ []
