-- ===== src/Webhooks/Examples/Disks.antt =====
-- Updates of the size of a service, with concrete values as in
-- pkg/controller/webhooks/default_handler_test.go.
use appcat.Common.{
  ℕ, ltb, ◌==◌, false, String, str_eq, [], ◌∷◌, Option, none, some, ◌≡◌, refl, ◌↔◌, if◌then◌else◌,
}
use appcat.Common.Results.{ok, err}
use appcat.Webhooks.Disk.{
  other, Composite, Outside, invalid_format, downsized, parse_plan, convert_plan_to_resource,
  fetch_plans_from_cluster, disk_text, get_effective_disk_size, compare_parsed, compare_sizes,
  with_new_size, with_old_size, validate_disk_downsizing,
}
use appcat.Webhooks.Disk.Size.{SizeIs}
use appcat.Webhooks.Disk.Growth.{Shrinks, Holds, SizesAre, validate_disk_downsizing_lem}

-- Quantities in Gi.
abbrev parse_gi : String → Option ℕ
parse_gi s =
    if str_eq s "16Gi"
    then some 16
    else (if str_eq s "20Gi" then some 20 else (if str_eq s "50Gi" then some 50 else none))

abbrev gi_text : ℕ → String
gi_text n = if n == 16 then "16Gi" else (if n == 20 then "20Gi" else "50Gi")

abbrev cluster : Outside ℕ String
cluster = record {
  get_config_map = λ ns name w.
      if str_eq name "vshnredisplans"
      then (ok (("plans", "two plans") ∷ []), w)
      else (err (other name), w);
  unmarshal_plans = λ s.
      if str_eq s "two plans"
      then some (
          ("standard-1", record { cpu = "16Gi"; disk = "16Gi"; memory = "16Gi" })
          ∷ ("standard-2", record { cpu = "20Gi"; disk = "20Gi"; memory = "20Gi" })
          ∷ [])
      else none;
  to_lower = λ s. "vshnredis";
  plans_namespace = "appcat";
  quantities = record {
    parse_quantity = parse_gi;
    less = ltb;
    is_zero = λ q. q == 0;
    to_text = gi_text;
  };
}

abbrev sized : String → String → Composite
sized plan disk = record { plan = plan; disk = disk }

downsizing_test :
    ((validate_disk_downsizing cluster
        (sized "standard-2" "")
        (sized "standard-1" "")
        "VSHNRedis"
        "w").0
      ≡ some (downsized "20Gi" "16Gi"))
    × ((validate_disk_downsizing cluster
          (sized "standard-2" "")
          (sized "standard-1" "50Gi")
          "VSHNRedis"
          "w").0
        ≡ none)
    × ((validate_disk_downsizing cluster (sized "" "20Gi") (sized "" "lots") "VSHNRedis" "w").0
        ≡ some (invalid_format "lots"))
    × ((validate_disk_downsizing cluster (sized "unknown" "") (sized "" "16Gi") "VSHNRedis" "w").0
        ≡ none)
unfolding validate_disk_downsizing with_old_size with_new_size compare_sizes compare_parsed
    get_effective_disk_size disk_text fetch_plans_from_cluster convert_plan_to_resource parse_plan
downsizing_test = (refl, refl, refl, refl)

validate_disk_downsizing_lem_example :
    ((a b : String)
      → ((validate_disk_downsizing cluster
            (sized "standard-2" "")
            (sized "standard-1" "")
            "VSHNRedis"
            "w").0
          ≡ some (downsized a b))
        ↔ SizesAre cluster (sized "standard-2" "") (sized "standard-1" "") "VSHNRedis" "w" a b
          × Shrinks cluster a b)
    × ((old_size : String) (old : ℕ) (between : String)
        → SizeIs cluster (sized "standard-2" "") "VSHNRedis" "w" old_size between
        → str_eq old_size "" ≡ false
        → parse_gi old_size ≡ some old
        → (validate_disk_downsizing cluster
            (sized "standard-2" "")
            (sized "standard-1" "")
            "VSHNRedis"
            "w").0
          ≡ none
        → (new_size : String) × SizesAre cluster
            (sized "standard-2" "")
            (sized "standard-1" "")
            "VSHNRedis"
            "w"
            old_size
            new_size
          × Holds cluster old new_size)
validate_disk_downsizing_lem_example =
    validate_disk_downsizing_lem cluster (sized "standard-2" "") (sized "standard-1" "") "VSHNRedis"
      "w"
