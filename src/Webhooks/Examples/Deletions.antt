-- ===== src/Webhooks/Examples/Deletions.antt =====
-- Objects that the protection against deletion holds back or lets go, with concrete values as in
-- pkg/controller/webhooks/deletionprotection_test.go.
use appcat.Common.{
  Bool, true, false, String, str_eq, List, [], ◌∷◌, none, ◌≡◌, refl, ◌↔◌, if◌then◌else◌,
}
use appcat.Common.Results.{GroupVersionKind, Result, ok, err}
use appcat.Webhooks.Deletion.{
  Error, not_found, not_registered, unexpected_operation, other, Object, Client, namespace_kind,
  override_label, storage_override_label, owner_composite_label, owner_kind_label,
  owner_version_label, owner_group_label, allowed, denied, errored, check_managed_object,
  validate_delete, find_composite, read_composite, unless_deleted, label_not_set, owner_gvk,
  is_deletion_protected, managed_response, handle, handle_old, check_unmanaged_object,
  check_in_namespace, storage_overridden, and_protected, unmanaged_response, protected_message,
}
use appcat.Webhooks.Deletion.Holds.{is_denied, Holds, Fails}
use appcat.Webhooks.Deletion.Managed.{validate_delete_lem}
use appcat.Webhooks.Deletion.Unmanaged.{FailsInNamespace, HeldByNamespace, handle_lem}

abbrev owned_labels : List (String × String)
owned_labels =
    (owner_composite_label, "redis-8wd2f")
    ∷ (owner_kind_label, "XVSHNRedis")
    ∷ (owner_version_label, "v1")
    ∷ (owner_group_label, "vshn.appcat.vshn.io")
    ∷ []

abbrev with_labels : List (String × String) → Object
with_labels labels = record {
  namespace = "vshn-redis";
  kind = "Release";
  labels = labels;
  deletion_timestamp = none;
}

abbrev composite : Object
composite = record { namespace = ""; kind = "XVSHNRedis"; labels = []; deletion_timestamp = none }

abbrev instance_namespace : Object
instance_namespace = with_labels ((storage_override_label, "true") ∷ owned_labels)

-- A cluster with one namespace and one composite; the state counts nothing.
abbrev cluster : Client String
cluster = record {
  get = λ gvk name w.
      if str_eq gvk.kind "Namespace"
      then (ok instance_namespace, w)
      else (if str_eq name "redis-8wd2f" then (ok composite, w) else (err not_found, w));
}

abbrev scheme : GroupVersionKind → Result Error Bool
scheme gvk = if str_eq gvk.kind "XVSHNRedis" then ok true else err not_registered

abbrev volume : Object
volume = record {
  namespace = "vshn-redis";
  kind = "PersistentVolumeClaim";
  labels = [];
  deletion_timestamp = none;
}

abbrev unmarshal : String → Result Error Object
unmarshal raw =
    if str_eq raw "volume"
    then ok volume
    else (if str_eq raw "release" then ok (with_labels []) else err (other raw))

validate_delete_test :
    ((validate_delete cluster none scheme (with_labels owned_labels) "w").0
      ≡ denied protected_message ("release" ∷ "redis-8wd2f" ∷ []))
    × ((validate_delete cluster none scheme
          (with_labels ((override_label, "true") ∷ owned_labels))
          "w").0
        ≡ allowed)
    × ((validate_delete cluster none scheme
          (with_labels ((owner_composite_label, "redis-1") ∷ owned_labels))
          "w").0
        ≡ allowed)
    × ((validate_delete cluster none scheme
          (with_labels ((owner_kind_label, "XOther") ∷ owned_labels))
          "w").0
        ≡ errored not_registered)
unfolding validate_delete check_managed_object find_composite read_composite unless_deleted
    label_not_set owner_gvk is_deletion_protected managed_response
validate_delete_test = (refl, refl, refl, refl)

handle_test :
    ((handle cluster none scheme unmarshal "DELETE" "volume" "w").0 ≡ allowed)
    × ((handle cluster none scheme unmarshal "DELETE" "release" "w").0
        ≡ denied protected_message ("Release" ∷ "redis-8wd2f" ∷ []))
unfolding handle handle_old check_unmanaged_object check_in_namespace storage_overridden
    and_protected unmanaged_response check_managed_object find_composite read_composite
    unless_deleted label_not_set owner_gvk is_deletion_protected
handle_test = (refl, refl)

validate_delete_lem_example :
    ((is_denied (validate_delete cluster none scheme (with_labels owned_labels) "w").0 ≡ true)
      ↔ Holds cluster none scheme (with_labels owned_labels) "w")
    × ((e : Error)
        → ((validate_delete cluster none scheme (with_labels owned_labels) "w").0 ≡ errored e)
          ↔ Fails cluster none scheme (with_labels owned_labels) "w" e)
validate_delete_lem_example = validate_delete_lem cluster none scheme (with_labels owned_labels) "w"

handle_lem_example :
    ((is_denied (handle cluster none scheme unmarshal "DELETE" "volume" "w").0 ≡ true)
      ↔ HeldByNamespace cluster none scheme volume (cluster.get namespace_kind "vshn-redis" "w"))
    × ((e : Error)
        → ((handle cluster none scheme unmarshal "DELETE" "volume" "w").0 ≡ errored e)
          ↔ FailsInNamespace cluster none scheme volume
              (cluster.get namespace_kind "vshn-redis" "w")
              e)
    × ((operation : String)
        → str_eq operation "DELETE" ≡ false
        → handle cluster none scheme unmarshal operation "volume" "w"
          ≡ (errored (unexpected_operation operation), "w"))
handle_lem_example = handle_lem cluster none scheme unmarshal "volume" volume "w" refl
