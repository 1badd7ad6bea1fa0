-- ===== src/Runtime/Dependencies.antt =====
-- The order in which the resources of a service are deployed, and their readiness:
-- pkg/comp-functions/runtime/function_mgr.go. The maps of a request are association lists; `escape` is
-- EscapeDNS1123 without colons. A loop over a map goes through a list of its entries.
pub mod Waiting
use appcat.Common.{
  Bool, true, false, ◌&&◌, ◌||◌, not, String, str_eq, List, [], ◌∷◌, any, map, Option, none, some,
  if◌then◌else◌,
}
use appcat.Common.Results.{lookup}

pub record Condition : Type 0 where
  pub type_ : String
  pub status : String

-- An observed resource. `conditions` is none if there is no status that can be read, and the empty
-- list if the status has no conditions.
pub record Observed : Type 0 where
  pub conditions : Option (List Condition)
  pub connection_details : List (String × String)

pub data Readiness : Type 0 where
  unspecified ready_true ready_false : Readiness

pub record Desired : Type 0 where
  pub resource : String
  pub ready : Readiness

-- What the code reads and writes of the runtime of a service. `req_desired` are the names in the
-- desired state of the request, `results` the texts of the warnings.
pub record ServiceRuntime : Type 0 where
  pub observed : List (String × Observed)
  pub req_desired : List String
  pub desired_resources : List (String × Desired)
  pub results : List String

pub data Error : Type 0 where
  err_not_found : Error

-- A condition that says that the resource is not synced or not ready.
unfoldable pub is_bad : Condition → Bool
is_bad cond =
    (str_eq cond.type_ "Synced" || str_eq cond.type_ "Ready") && str_eq cond.status "False"

unfoldable pub good_status : Option (List Condition) → Bool
good_status none = false
good_status (some conditions) = not (any is_bad conditions)

abbrev pub is_there {ℓ} : {A : Type ℓ} → Option A → Bool
is_there none = false
is_there (some a) = true

unfoldable pub synced_and_ready : Option Observed → Bool
synced_and_ready none = false
synced_and_ready (some obj) = good_status obj.conditions

-- The text of a condition's status; empty if there is no condition of the type.
unfoldable pub get_condition : String → List Condition → String
get_condition type_ [] = ""
get_condition type_ (cond ∷ conditions) =
    let rest = get_condition type_ conditions in
    if str_eq cond.type_ type_ then cond.status else rest

unfoldable pub is_ready : Option (List Condition) → Bool
is_ready none = false
is_ready (some conditions) = str_eq (get_condition "Ready" conditions) "True"

-- What checkReadiness does with one desired resource; a warning if it was not observed.
unfoldable pub check_one : Option Observed → Desired → Desired
check_one none dr = dr
check_one (some obj) dr = elim dr.ready [
  | unspecified ↦ if is_ready obj.conditions then record dr { ready = ready_true } else dr
  | _ ↦ dr
]

unfoldable pub check_all :
    List (String × Observed) → List (String × Desired) → List (String × Desired)
check_all observed [] = []
check_all observed ((name, dr) ∷ desired) =
    (name, check_one (lookup name observed) dr) ∷ check_all observed desired

unfoldable pub warnings : List (String × Observed) → List (String × Desired) → List String
warnings observed [] = []
warnings observed ((name, dr) ∷ desired) =
    let rest = warnings observed desired in
    if is_there (lookup name observed) then rest else name ∷ rest

unfoldable pub append_all : List String → List String → List String
append_all [] more = more
append_all (x ∷ xs) more = x ∷ append_all xs more

unfoldable pub check_readiness : ServiceRuntime → ServiceRuntime
check_readiness s = record s {
  desired_resources = check_all s.observed s.desired_resources;
  results = append_all s.results (warnings s.observed s.desired_resources);
}

unfoldable pub set_ready : String → Readiness → List (String × Desired) → List (String × Desired)
set_ready name ready [] = []
set_ready name ready ((n, dr) ∷ desired) =
    let rest = set_ready name ready desired in
    if str_eq n name then (n, record dr { ready = ready }) ∷ desired else (n, dr) ∷ rest

unfoldable pub set_desired_resource_readiness : String → Readiness → ServiceRuntime → ServiceRuntime
set_desired_resource_readiness name ready s = record s {
  desired_resources = set_ready name ready s.desired_resources;
}

unfoldable pub has_value : List (String × String) → String → Bool
has_value details key = elim (lookup key details) [
  | none ↦ false
  | some value ↦ not (str_eq value "")
]

unfoldable pub has_fields : List (String × String) → List String → Bool
has_fields details [] = true
has_fields details (key ∷ keys) = has_value details key && has_fields details keys

abbrev pub not_yet : String → Option Error → ServiceRuntime → (Bool × Option Error) × ServiceRuntime
not_yet main_resource e s = ((false, e), set_desired_resource_readiness main_resource ready_false s)

-- What a turn of the loop does with the connection details; `rest` are the turns after it.
unfoldable pub after_details :
    String
    → List String
    → Option (List (String × String))
    → (Bool × Option Error) × ServiceRuntime
    → ServiceRuntime
    → (Bool × Option Error) × ServiceRuntime
after_details main_resource keys none rest s = not_yet main_resource (some err_not_found) s
after_details main_resource keys (some details) rest s =
    if has_fields details keys then rest else not_yet main_resource none s

module _ (escape : String → String) where
  unfoldable pub is_resource_synced_and_ready : ServiceRuntime → String → Bool
  is_resource_synced_and_ready s name = synced_and_ready (lookup (escape name) s.observed)

  unfoldable pub are_resources_ready : ServiceRuntime → List String → Bool
  are_resources_ready s [] = true
  are_resources_ready s (name ∷ names) =
      is_resource_synced_and_ready s name && are_resources_ready s names

  -- The name of the main resource is taken as it is.
  unfoldable pub wait_for_observed_dependencies : ServiceRuntime → String → List String → Bool
  wait_for_observed_dependencies s main_resource dependencies =
      if is_there (lookup main_resource s.observed)
      then true
      else are_resources_ready s dependencies

  unfoldable pub wait_for_desired_dependencies : ServiceRuntime → String → List String → Bool
  wait_for_desired_dependencies s main_resource dependencies =
      if any (str_eq main_resource) s.req_desired then true else are_resources_ready s dependencies

  unfoldable pub get_observed_connection_details :
      ServiceRuntime → String → Option (List (String × String))
  get_observed_connection_details s name = elim (lookup (escape name) s.observed) [
    | none ↦ none
    | some object ↦ some object.connection_details
  ]

  unfoldable pub turn :
      ServiceRuntime
      → String
      → String × List String
      → (Bool × Option Error) × ServiceRuntime
      → (Bool × Option Error) × ServiceRuntime
  turn s main_resource (dep, keys) rest =
      if wait_for_observed_dependencies s main_resource (dep ∷ [])
      then after_details main_resource keys (get_observed_connection_details s dep) rest s
      else not_yet main_resource none s

  unfoldable pub wait_each :
      ServiceRuntime → String → List (String × List String) → (Bool × Option Error) × ServiceRuntime
  wait_each s main_resource [] = ((true, none), s)
  wait_each s main_resource (d ∷ deps) = turn s main_resource d (wait_each s main_resource deps)

  -- The dependencies with the fields of their connection details, in the order of the walk over the
  -- map.
  unfoldable pub wait_for_connection_details :
      ServiceRuntime → String → List (String × List String) → (Bool × Option Error) × ServiceRuntime
  wait_for_connection_details s main_resource deps =
      if is_there (lookup main_resource s.observed)
      then ((true, none), s)
      else wait_each s main_resource deps

  unfoldable pub resource_exists_in_observed : ServiceRuntime → String → Bool
  resource_exists_in_observed s name = is_there (lookup (escape name) s.observed)

  -- IsResourceReady, without the text of its error.
  unfoldable pub is_resource_ready : ServiceRuntime → String → Bool
  is_resource_ready s name = elim (lookup (escape name) s.observed) [
    | none ↦ false
    | some obj ↦ is_ready obj.conditions
  ]
