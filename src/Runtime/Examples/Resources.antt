-- ===== src/Runtime/Examples/Resources.antt =====
-- Resources of a service that wait for each other, and the names that protect them.
use appcat.Common.{true, false, String, List, [], ◌∷◌, All, none, some, ◌≡◌, refl, ◌⊎◌}
use appcat.Common.Results.{lookup}
use appcat.Common.Text.{split, split_from, join}
use appcat.Runtime.Naming.{all_chars}
use appcat.Common.Maps.{put}
use appcat.Runtime.Protection.{
  protected_by_annotation, protects_annotation, remove_seen, remove_duplicate, add_name,
  add_protection_annotation, add_all, names_in,
}
use appcat.Runtime.Protection.Names.{IsName, Distinct}
use appcat.Runtime.Protection.Refinement.{add_all_refines}
use appcat.Runtime.Dependencies.{
  unspecified, ready_true, ready_false, ServiceRuntime, is_bad, good_status, is_there,
  synced_and_ready, get_condition, is_ready, check_one, check_all, warnings, append_all,
  check_readiness, set_desired_resource_readiness, is_resource_synced_and_ready,
  are_resources_ready, wait_for_observed_dependencies, get_observed_connection_details, has_value,
  has_fields, after_details, turn, wait_each, wait_for_connection_details, is_resource_ready,
}
use appcat.Runtime.Dependencies.Waiting.{IsMet, wait_for_connection_details_lem}

abbrev redis_and_backup : List String
redis_and_backup = "redis" ∷ "backup" ∷ "redis" ∷ []

abbrev other_annotations : List (String × String)
other_annotations = (protects_annotation, "namespace") ∷ []

added_test :
    add_all redis_and_backup protected_by_annotation other_annotations
    ≡ (protects_annotation, "namespace") ∷ (protected_by_annotation, "redis,backup") ∷ []
unfolding add_all add_protection_annotation put add_name remove_duplicate remove_seen split
    split_from join
added_test = refl

redis_and_backup-IsName : All IsName redis_and_backup
unfolding all_chars
redis_and_backup-IsName = (good, (other, (good, tt)))
  where
    good : IsName "redis"
    good = record { named = refl; one = refl }

    other : IsName "backup"
    other = record { named = refl; one = refl }

add_all_refines_example :
    (names_in (
        lookup protected_by_annotation
          (add_all redis_and_backup protected_by_annotation other_annotations))
      ≡ "redis" ∷ "backup" ∷ [])
    × Distinct ("redis" ∷ "backup" ∷ [])
    × (lookup protects_annotation
          (add_all redis_and_backup protected_by_annotation other_annotations)
        ≡ some "namespace")
add_all_refines_example =
    add_all_refines redis_and_backup protected_by_annotation protects_annotation other_annotations
      redis_and_backup-IsName refl refl

-- A release that has no conditions yet, and a secret.
abbrev service : ServiceRuntime
service = record {
  observed =
      (
        "secret",
        record {
          conditions = some (record { type_ = "Ready"; status = "True" } ∷ []);
          connection_details = ("password", "1234") ∷ ("user", "") ∷ [];
        },
      )
      ∷ ("release", record { conditions = some []; connection_details = [] })
      ∷ [];
  req_desired = [];
  desired_resources =
      ("secret", record { resource = "Object"; ready = unspecified })
      ∷ ("job", record { resource = "Job"; ready = unspecified })
      ∷ [];
  results = [];
}

abbrev same_name : String → String
same_name name = name

waiting_test :
    (wait_for_connection_details same_name service "job"
        (("secret", "password" ∷ []) ∷ ("release", []) ∷ [])
      ≡ ((true, none), service))
    × (wait_for_connection_details same_name service "job" (("secret", "user" ∷ []) ∷ [])
        ≡ ((false, none), set_desired_resource_readiness "job" ready_false service))
    × (wait_for_observed_dependencies same_name service "job" ("namespace" ∷ []) ≡ false)
unfolding wait_for_connection_details wait_each turn wait_for_observed_dependencies
    are_resources_ready is_resource_synced_and_ready synced_and_ready good_status is_bad
    get_observed_connection_details after_details has_fields has_value
waiting_test = (refl, refl, refl)

-- A resource without conditions counts as synced and ready, though it is not ready.
readiness_test :
    (is_resource_synced_and_ready same_name service "release" ≡ true)
    × (is_resource_ready same_name service "release" ≡ false)
    × ((check_readiness service).desired_resources
        ≡ ("secret", record { resource = "Object"; ready = ready_true })
          ∷ ("job", record { resource = "Job"; ready = unspecified })
          ∷ [])
    × ((check_readiness service).results ≡ "job" ∷ [])
unfolding is_resource_synced_and_ready synced_and_ready good_status is_bad is_resource_ready
    is_ready get_condition check_readiness check_all check_one warnings append_all
readiness_test = (refl, refl, refl, refl)

wait_for_connection_details_lem_example :
    (((is_there (lookup "job" service.observed) ≡ true)
        ⊎ All (IsMet same_name service) (("secret", "user" ∷ []) ∷ []))
      × (wait_for_connection_details same_name service "job" (("secret", "user" ∷ []) ∷ [])
          ≡ ((true, none), service)))
    ⊎ ((is_there (lookup "job" service.observed) ≡ false)
        × (All (IsMet same_name service) (("secret", "user" ∷ []) ∷ []) → ⊥)
        × (wait_for_connection_details same_name service "job" (("secret", "user" ∷ []) ∷ [])
            ≡ ((false, none), set_desired_resource_readiness "job" ready_false service)))
wait_for_connection_details_lem_example =
    wait_for_connection_details_lem same_name service "job" (("secret", "user" ∷ []) ∷ [])
