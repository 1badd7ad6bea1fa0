-- ===== src/Quotas/Examples.antt =====
-- An organization with two namespaces and an instance of three replicas. Quantities are thousandths.
use appcat.Common.{
  ℕ, ◌+◌, ◌*◌, ◌/◌, ltb, ◌==◌, false, String, str_eq, List, [], ◌∷◌, Option, none, some, ◌≡◌, refl,
  ◌↔◌, arith, if◌then◌else◌,
}
use appcat.Common.Int.{pos, negsuc, ◌≤ℤ◌}
use appcat.Common.Results.{ok, err}
use appcat.Webhooks.Disk.{not_found, Resources}
use appcat.Quotas.{forbidden, Amounts, Cluster, QuotaChecker, org_label, multiply_by, no_resources}
use appcat.Quotas.Limits.{
  quota_at, get_namespace_quotas, or_no_quotas, quotas_for, sidecars_for, override_in,
  get_namespace_overrides,
}
use appcat.Quotas.Limits.{check_quotas as check_organization}
use appcat.Quotas.Sizes.{
  Composite, Handler, add_paths_to_resources, resources_of_plan, check_quotas,
}
use appcat.Quotas.Sidecars.{get_default_resources}
use appcat.Quotas.Admission.{namespace_limit, FitsAll, Reads, check_quotas_iff}
use appcat.Quotas.Products.{Stores, InRange, IsMultiple, multiply_by_lem}
use appcat.Quotas.Requests.{answer, bad_paths, check_quotas_lem}

abbrev thousandths : Amounts ℕ
thousandths = record {
  zero_quantity = 0;
  value = λ q. q / 1000;
  milli_value = λ q. q;
  set = λ q n. 1000 * n;
  set_milli = λ q n. n;
  add = λ a b. a + b;
  new_quantity = λ n. 1000 * n;
  new_milli_quantity = λ n. n;
}

thousandths-Stores : Stores thousandths
thousandths-Stores = record {
  value-set = λ q n small. omega arith;
  milli_value-set_milli = λ q n small. refl;
}

abbrev parse_amount : String → Option ℕ
parse_amount s =
    if str_eq s "1"
    then some 1000
    else (if str_eq s "500m"
        then some 500
        else (if str_eq s "4Gi" then some (1000 * 4294967296) else none))

abbrev cluster : Cluster ℕ String
cluster = record {
  plans = record {
    get_config_map = λ ns name w. (err not_found, w);
    unmarshal_plans = λ s. none;
    to_lower = λ s. s;
    plans_namespace = "appcat";
    quantities = record {
      parse_quantity = parse_amount;
      less = ltb;
      is_zero = λ q. q == 0;
      to_text = λ q. "";
    };
  };
  amounts = thousandths;
  get_namespace = λ name w. (
    ok (record {
      labels = (org_label, "shop") ∷ [];
      annotations = ("resourcequota.appuio.io/organization-compute.requests.cpu", "1") ∷ [];
    }),
    w,
  );
  list_namespaces = λ org w. (ok ("a" ∷ "b" ∷ []), w);
  unmarshal_sidecars = λ s. none;
  atoi = λ s. none;
  is_label_value = λ s. str_eq s "shop";
}

abbrev small : Resources ℕ
small = record {
  cpu_requests = 500;
  cpu_limits = 1000;
  memory_requests = 1000 * 4294967296;
  memory_limits = 1000 * 4294967296;
  disk = 1000 * 4294967296;
}

small-InRange : InRange thousandths 3 small
small-InRange = record {
  cpu_requests = omega arith;
  cpu_limits = omega arith;
  memory_requests = omega arith;
  memory_limits = omega arith;
  disk = omega arith;
}

multiply_by_lem_example :
    IsMultiple thousandths 3 small (multiply_by thousandths (pos 3) small)
    × (multiply_by thousandths (pos 0) small ≡ small)
    × (multiply_by thousandths (negsuc 2) small ≡ small)
multiply_by_lem_example = multiply_by_lem thousandths thousandths-Stores small 2 small-InRange

abbrev checker : QuotaChecker ℕ
checker = record {
  requested_resources = small;
  instance_namespace = "vshn-redis-db";
  claim_namespace = "shop-prod";
  kind = "VSHNRedis";
  instances = pos 3;
}

-- The quotas that the namespace of the instance has.
abbrev set_quotas : Resources ℕ
set_quotas = record {
  cpu_requests = 1000;
  cpu_limits = 0;
  memory_requests = 0;
  memory_limits = 0;
  disk = 0;
}

cluster-Reads : Reads cluster checker "w" ("a" ∷ "b" ∷ []) none [] set_quotas
unfolding get_namespace_overrides override_in sidecars_for quotas_for or_no_quotas
    get_namespace_quotas quota_at
cluster-Reads = record {
  ns = record {
    labels = (org_label, "shop") ∷ [];
    annotations = ("resourcequota.appuio.io/organization-compute.requests.cpu", "1") ∷ [];
  };
  org = "shop";
  w₁ = "w";
  w₂ = "w";
  w₃ = "w";
  w₄ = "w";
  w₅ = "w";
  claim_read = refl;
  has_org = refl;
  org_valid = refl;
  listed = refl;
  override_read = refl;
  sidecars_read = refl;
  quotas_read = refl;
}

check_quotas_iff_example :
    (((check_organization cluster checker "w").0 ≡ ok tt)
      ↔ (pos 3 ≤ℤ namespace_limit none)
        × FitsAll cluster small set_quotas (get_default_resources cluster "VSHNRedis" []))
    × (((check_organization cluster checker "w").0 ≡ err forbidden)
        ↔ (namespace_limit none ≤ℤ pos 2))
check_quotas_iff_example =
    check_quotas_iff cluster checker "w" ("a" ∷ "b" ∷ []) none [] set_quotas cluster-Reads

abbrev redis : Handler
redis = record { name = "redis"; kind = "VSHNRedis" }

-- Two of the three sizes are no quantities.
abbrev composite : Composite
composite = record {
  size = record {
    plan = "";
    cpu = "500m";
    memory = "lots";
    requests_cpu = "";
    requests_memory = "";
    disk = "more";
  };
  instances = pos 3;
  namespace = "shop-prod";
  instance_namespace = "vshn-redis-db";
}

two_bad :
    bad_paths cluster redis (add_paths_to_resources false) composite.size
    ≡ "spec.parameters.size.Memory" ∷ "spec.parameters.size.disk" ∷ []
unfolding add_paths_to_resources
two_bad = refl

check_quotas_lem_example :
    check_quotas cluster redis composite "w"
    ≡ answer cluster redis composite
        (no_resources thousandths)
        "w"
        (bad_paths cluster redis (add_paths_to_resources (str_eq "redis" "redis")) composite.size)
unfolding resources_of_plan
check_quotas_lem_example =
    check_quotas_lem cluster redis composite (no_resources thousandths) "w" "w" refl

-- A namespace whose CPU quota was set by hand.
abbrev by_hand : List (String × String)
by_hand = ("resourcequota.appuio.io/organization-compute.requests.cpu", "8") ∷ []
