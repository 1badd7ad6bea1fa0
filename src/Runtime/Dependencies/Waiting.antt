-- ===== src/Runtime/Dependencies/Waiting.antt =====
-- When pkg/comp-functions/runtime/function_mgr.go deploys a resource that depends on others.
use appcat.Common.{
  Bool, true, false, ◌&&◌, not, String, str_eq, List, [], ◌∷◌, any, All, All-any-false,
  any-false-All, Option, none, some, ◌≡◌, refl, sym, ap, ◌∙◌, subst, ◌↔◌, ◌⊎◌, inl, inr, Bool-cases,
  Option-cases, arith, if◌then◌else◌,
}
use appcat.Common.Results.{lookup}
use appcat.Runtime.Dependencies.{
  Condition, Observed, ready_false, ServiceRuntime, Error, is_bad, good_status, is_there,
  synced_and_ready, is_resource_synced_and_ready, are_resources_ready,
  wait_for_observed_dependencies, get_observed_connection_details, has_value, has_fields,
  after_details, turn, wait_each, wait_for_connection_details, set_desired_resource_readiness,
  not_yet,
}

abbrev pub HasValue : List (String × String) → String → Type 0
HasValue details key =
    (value : String) × (lookup key details ≡ some value) × (str_eq value "" ≡ false)

has_value_lem :
    (details : List (String × String)) (key : String)
    → (has_value details key ≡ true) ↔ HasValue details key
unfolding has_value
has_value_lem details key = elim (Option-cases (lookup key details)) [
  | inl missing ↦ rw (missing, has_value) (λ h. cc, λ (value, found, set). cc)
  | inr (value, found) ↦ elim (Bool-cases (str_eq value "")) [
    | inl empty ↦ rw (found, has_value) (λ h. cc, λ (v, here, set). let same : value ≡ v = cc in cc)
    | inr set ↦ rw (found, has_value) (λ h. (value, refl, set), λ h. rw set refl)
  ]
]

has_fields_lem :
    (details : List (String × String)) (keys : List String)
    → (has_fields details keys ≡ true) ↔ All (HasValue details) keys
unfolding has_fields
has_fields_lem details [] = (λ h. tt, λ h. refl)
has_fields_lem details (key ∷ keys) =
    let (there, back) = has_fields_lem details keys in
    let (first, again) = has_value_lem details key in
    (λ h. (first (ground arith), there (ground arith)), λ (x, xs). rw (again x, back xs) refl)

module _ (escape : String → String) (s : ServiceRuntime) where
  -- A dependency is there, its status can be read and has no condition that says that it is not
  -- synced or not ready, and each field of its connection details has a value.
  pub record IsMet (dependency : String × List String) : Type 0 where
    pub object : Observed
    pub conditions : List Condition
    pub there : lookup (escape dependency.0) s.observed ≡ some object
    pub status : object.conditions ≡ some conditions
    pub good : All (λ c. is_bad c ≡ false) conditions
    pub fields : All (HasValue object.connection_details) dependency.1

  not_there :
      (dep : String) (keys : List String)
      → lookup (escape dep) s.observed ≡ none
      → IsMet (dep, keys)
      → ⊥
  not_there dep keys missing met =
      let clash : none ≡ some met.object = sym missing ∙ met.there in cc

  -- A turn for a dependency that was observed.
  turn_there :
      (main_resource dep : String) (keys : List String)
      (rest : (Bool × Option Error) × ServiceRuntime) (obj : Observed)
      → is_there (lookup main_resource s.observed) ≡ false
      → lookup (escape dep) s.observed ≡ some obj
      → turn escape s main_resource (dep, keys) rest ≡ (
          if good_status obj.conditions && has_fields obj.connection_details keys
          then rest
          else not_yet main_resource none s)
  unfolding turn wait_for_observed_dependencies are_resources_ready is_resource_synced_and_ready
      synced_and_ready get_observed_connection_details after_details
  turn_there main_resource dep keys rest obj missing there =
      elim (Bool-cases (good_status obj.conditions)) [
        | inl good ↦ rw (missing, there, get_observed_connection_details) (rw good refl)
        | inr bad ↦ rw (missing, there) (rw bad refl)
      ]

  good_lem :
      (dep : String) (keys : List String) (obj : Observed)
      → lookup (escape dep) s.observed ≡ some obj
      → ((good_status obj.conditions && has_fields obj.connection_details keys) ≡ true)
        ↔ IsMet (dep, keys)
  unfolding good_status
  good_lem dep keys obj there = (
    λ good. elim (Option-cases obj.conditions) [
      | inl unread ↦
          let clash : false ≡ true =
            ap (λ o. good_status o && has_fields obj.connection_details keys) (sym unread) ∙ good in
          cc
      | inr (conditions, status) ↦
          let both : (not (any is_bad conditions) && has_fields obj.connection_details keys)
              ≡ true =
            ap (λ o. good_status o && has_fields obj.connection_details keys) (sym status) ∙ good in
          record {
            object = obj;
            conditions = conditions;
            there = there;
            status = status;
            good = All-any-false is_bad conditions (ground arith);
            fields = (has_fields_lem obj.connection_details keys).0 (ground arith);
          }
    ],
    λ met.
        let same : met.object ≡ obj = some_equal _ _ (sym met.there ∙ there) in
        let full =
          (has_fields_lem obj.connection_details keys).1
            (subst (λ o. All (HasValue o.connection_details) keys) same met.fields) in
        let status : obj.conditions ≡ some met.conditions =
          ap (λ o. o.conditions) (sym same) ∙ met.status in
        let quiet : any is_bad met.conditions ≡ false =
          any-false-All is_bad met.conditions met.good in
        ap (λ o. good_status o && has_fields obj.connection_details keys) status
        ∙ rw (quiet, full) refl,
  )
    where
      some_equal : (a b : Observed) → ◌≡◌ {A = Option Observed} (some a) (some b) → a ≡ b
      some_equal a b e = cc

  turn_lem :
      (main_resource dep : String) (keys : List String)
      (rest : (Bool × Option Error) × ServiceRuntime)
      → is_there (lookup main_resource s.observed) ≡ false
      → (IsMet (dep, keys) × (turn escape s main_resource (dep, keys) rest ≡ rest))
        ⊎ ((IsMet (dep, keys) → ⊥)
            × (turn escape s main_resource (dep, keys) rest ≡ not_yet main_resource none s))
  unfolding turn wait_for_observed_dependencies are_resources_ready is_resource_synced_and_ready
      synced_and_ready
  turn_lem main_resource dep keys rest missing =
      elim (Option-cases (lookup (escape dep) s.observed)) [
        | inl gone ↦ inr (not_there dep keys gone, rw (missing, gone) refl)
        | inr (obj, there) ↦
            let turned = turn_there main_resource dep keys rest obj missing there in
            let (met, back) = good_lem dep keys obj there in
            elim (Bool-cases
              (good_status obj.conditions && has_fields obj.connection_details keys)) [
                | inl good ↦ inl (
                  met good,
                  turned ∙ ap (λ b. if b then rest else not_yet main_resource none s) good,
                )
                | inr bad ↦ inr (
                  λ m. let clash : true ≡ false = sym (back m) ∙ bad in cc,
                  turned ∙ ap (λ b. if b then rest else not_yet main_resource none s) bad,
                )
              ]
      ]

  wait_each_lem :
      (main_resource : String) (deps : List (String × List String))
      → is_there (lookup main_resource s.observed) ≡ false
      → (All IsMet deps × (wait_each escape s main_resource deps ≡ ((true, none), s)))
        ⊎ ((All IsMet deps → ⊥)
            × (wait_each escape s main_resource deps ≡ not_yet main_resource none s))
  unfolding wait_each
  wait_each_lem main_resource [] missing = inl (tt, refl)
  wait_each_lem main_resource ((dep, keys) ∷ deps) missing =
      elim (turn_lem main_resource dep keys (wait_each escape s main_resource deps) missing) [
        | inr (unmet, stopped) ↦ inr (λ (m, ms). unmet m, stopped)
        | inl (met, went_on) ↦ elim (wait_each_lem main_resource deps missing) [
          | inl (all_met, done) ↦ inl ((met, all_met), went_on ∙ done)
          | inr (unmet, stopped) ↦ inr (λ (m, ms). unmet ms, went_on ∙ stopped)
        ]
      ]

  -- A resource is deployed if it was observed before or all that it depends on is met; then nothing
  -- changes. Otherwise it is marked as not ready and waits. There is never an error.
  pub wait_for_connection_details_lem :
      (main_resource : String) (deps : List (String × List String))
      → (((is_there (lookup main_resource s.observed) ≡ true) ⊎ All IsMet deps)
          × (wait_for_connection_details escape s main_resource deps ≡ ((true, none), s)))
        ⊎ ((is_there (lookup main_resource s.observed) ≡ false)
            × (All IsMet deps → ⊥)
            × (wait_for_connection_details escape s main_resource deps
                ≡ ((false, none), set_desired_resource_readiness main_resource ready_false s)))
  unfolding wait_for_connection_details
  wait_for_connection_details_lem main_resource deps =
      elim (Bool-cases (is_there (lookup main_resource s.observed))) [
        | inl there ↦ inl (inl there, rw there refl)
        | inr missing ↦ elim (wait_each_lem main_resource deps missing) [
          | inl (met, done) ↦ inl (inr met, rw missing done)
          | inr (unmet, stopped) ↦ inr (missing, unmet, rw missing stopped)
        ]
      ]
