-- ===== src/Webhooks/Disk/Size.antt =====
-- Which disk a composite has: getEffectiveDiskSize of pkg/controller/webhooks/default_handler.go, read
-- off the composite and the plans without the code.
use appcat.Common.{
  true, false, String, str_eq, eq_iff, Option, some, ◌≡◌, refl, sym, ap, ◌∙◌, List, ◌⊎◌, inl, inr,
  Bool-cases, Option-cases,
}
use appcat.Common.Results.{Result, ok, err, lookup, text_or_empty}
use appcat.Webhooks.Disk.{
  bad_quantity, bad_plans, Resources, Plan, plan_or_empty, Composite, Outside, parse_plan,
  convert_plan_to_resource, fetch_plans_from_cluster, disk_text, get_effective_disk_size,
}
use Prim.Native.String.{◌++◌ as text_append}

answer-cases :
    {W E A : Type 0} (r : Result E A × W)
    → ((a : A) × (w : W) × (r ≡ (ok a, w))) ⊎ ((e : E) × (w : W) × (r ≡ (err e, w)))
answer-cases (ok a, w) = inl (a, w, refl)
answer-cases (err e, w) = inr (e, w, refl)

module _ {Q W : Type 0} (o : Outside Q W) where
  abbrev parse : String → Option Q
  parse = o.quantities.parse_quantity

  -- A disk of size zero is shown as the empty text.
  abbrev pub IsShown : Q → String → Type 0
  IsShown disk size =
      ((o.quantities.is_zero disk ≡ true) × (size ≡ ""))
      ⊎ ((o.quantities.is_zero disk ≡ false) × (size ≡ o.quantities.to_text disk))

  abbrev resources : Q → Q → Q → Resources Q
  resources cpu memory disk = record {
    cpu_requests = cpu;
    cpu_limits = cpu;
    memory_requests = memory;
    memory_limits = memory;
    disk = disk;
  }

  -- The amounts of a plan are quantities, and its disk is the size.
  abbrev pub OfPlan : Plan → String → Type 0
  OfPlan plan size =
      (cpu : Q) × (memory : Q) × (disk : Q) × (o.quantities.parse_quantity plan.cpu ≡ some cpu)
      × (o.quantities.parse_quantity plan.memory ≡ some memory)
      × (o.quantities.parse_quantity plan.disk ≡ some disk)
      × IsShown disk size

  -- The plans of the service are read, which leaves the state `after`, and its plan has this size.
  abbrev pub IsPlanned : Composite → String → W → String → W → Type 0
  IsPlanned comp service w size after =
      (contents : List (String × String)) × (plans : List (String × Plan)) × (o.get_config_map
          o.plans_namespace (text_append (o.to_lower service) "plans") w
        ≡ (ok contents, after))
      × (o.unmarshal_plans (text_or_empty (lookup "plans" contents)) ≡ some plans)
      × OfPlan (plan_or_empty (lookup comp.plan plans)) size

  -- The disk of a composite: its own, that of its plan if it has no disk, or none.
  pub data SizeIs (comp : Composite) (service : String) (w : W) (size : String) (after : W)
      : Type 0 where
    own :
        str_eq comp.disk "" ≡ false
        → size ≡ comp.disk
        → after ≡ w
        → SizeIs comp service w size after
    neither :
        comp.disk ≡ "" → comp.plan ≡ "" → size ≡ "" → after ≡ w → SizeIs comp service w size after
    planned :
        comp.disk ≡ ""
        → str_eq comp.plan "" ≡ false
        → IsPlanned comp service w size after
        → SizeIs comp service w size after

  -- What the quantities of a plan that is parsed are.
  abbrev Parsed : Plan → Resources Q → Type 0
  Parsed plan r =
      (cpu : Q) × (memory : Q) × (parse plan.cpu ≡ some cpu)
      × (parse plan.memory ≡ some memory)
      × (parse plan.disk ≡ some r.disk)

  parse_plan-Parsed :
      (plan : Plan) (w after : W) (r : Resources Q)
      → parse_plan o plan w ≡ (ok r, after)
      → Parsed plan r × (after ≡ w)
  unfolding parse_plan
  parse_plan-Parsed plan w after r found = elim (Option-cases (parse plan.cpu)) [
    | inl bad ↦ let clash : (err bad_quantity, w) ≡ (ok r, after) = rw bad at found in cc
    | inr (cpu, cpu_parsed) ↦ elim (Option-cases (parse plan.memory)) [
      | inl bad ↦
          let clash : (err bad_quantity, w) ≡ (ok r, after) = rw (cpu_parsed, bad) at found in cc
      | inr (memory, memory_parsed) ↦ elim (Option-cases (parse plan.disk)) [
        | inl bad ↦
            let clash : (err bad_quantity, w) ≡ (ok r, after) =
              rw (cpu_parsed, memory_parsed, bad) at found in
            cc
        | inr (disk, disk_parsed) ↦
            let same : (ok (resources cpu memory disk), w) ≡ (ok r, after) =
              rw (cpu_parsed, memory_parsed, disk_parsed) at found in
            let same_r : resources cpu memory disk ≡ r = cc in
            (
              (cpu, memory, cpu_parsed, memory_parsed, disk_parsed ∙ ap (λ x. some x.disk) same_r),
              sym (ap (λ p. p.1) same),
            )
      ]
    ]
  ]

  shown_lem : (r : Resources Q) (size : String) → disk_text o r ≡ size → IsShown r.disk size
  unfolding disk_text
  shown_lem r size found = elim (Bool-cases (o.quantities.is_zero r.disk)) [
    | inl zero ↦ inl (zero, sym (rw zero at found))
    | inr more ↦ inr (more, sym (rw more at found))
  ]

  shown_back : (r : Resources Q) (size : String) → IsShown r.disk size → disk_text o r ≡ size
  unfolding disk_text
  shown_back r size (inl (zero, same)) = rw zero (sym same)
  shown_back r size (inr (more, same)) = rw more (sym same)

  fetch_there :
      (comp : Composite) (service : String) (w after : W) (size : String) (r : Resources Q)
      → fetch_plans_from_cluster o (text_append (o.to_lower service) "plans") comp.plan w
        ≡ (ok r, after)
      → disk_text o r ≡ size
      → IsPlanned comp service w size after
  unfolding fetch_plans_from_cluster convert_plan_to_resource
  fetch_there comp service w after size r found shown =
      elim (answer-cases
        (o.get_config_map o.plans_namespace (text_append (o.to_lower service) "plans") w)) [
          | inr (e, w', failed) ↦ let clash : (err e, w') ≡ (ok r, after) = rw failed at found in cc
          | inl (contents, w', read) ↦
              elim (Option-cases (o.unmarshal_plans (text_or_empty (lookup "plans" contents)))) [
                | inl bad ↦
                    let clash : (err bad_plans, w') ≡ (ok r, after) = rw (read, bad) at found in cc
                | inr (plans, listed) ↦
                    let plan = plan_or_empty (lookup comp.plan plans) in
                    let parsed : parse_plan o plan w' ≡ (ok r, after) =
                      rw (read, listed) at found in
                    let ((cpu, memory, c, m, d), same) = parse_plan-Parsed plan w' after r parsed in
                    (
                      contents,
                      plans,
                      rw same read,
                      listed,
                      (cpu, memory, r.disk, c, m, d, shown_lem r size shown),
                    )
              ]
        ]

  pub size_there :
      (comp : Composite) (service : String) (w after : W) (size : String)
      → get_effective_disk_size o comp service w ≡ (ok size, after)
      → SizeIs comp service w size after
  unfolding get_effective_disk_size
  size_there comp service w after size found = elim (Bool-cases (str_eq comp.disk "")) [
    | inr set ↦
        let same : (ok comp.disk, w) ≡ (ok size, after) = rw set at found in
        let own_disk : size ≡ comp.disk = cc in own set own_disk (sym (ap (λ p. p.1) same))
    | inl unset ↦ elim (Bool-cases (str_eq comp.plan "")) [
      | inl planless ↦
          let same : (ok "", w) ≡ (ok size, after) = rw (unset, planless) at found in
          let empty : size ≡ "" = cc in
          neither ((eq_iff comp.disk "").0 unset) ((eq_iff comp.plan "").0 planless) empty
            (sym (ap (λ p. p.1) same))
      | inr plan ↦
          elim (answer-cases
            (fetch_plans_from_cluster o (text_append (o.to_lower service) "plans") comp.plan w)) [
              | inr (e, w', failed) ↦
                  let clash : (err e, w') ≡ (ok size, after) = rw (unset, plan, failed) at found in
                  cc
              | inl (r, w', fetched) ↦
                  let same : (ok (disk_text o r), w') ≡ (ok size, after) =
                    rw (unset, plan, fetched) at found in
                  let there : w' ≡ after = ap (λ p. p.1) same in
                  planned ((eq_iff comp.disk "").0 unset) plan
                    (fetch_there comp service w after size r (rw there at fetched) cc)
            ]
    ]
  ]

  pub size_back :
      (comp : Composite) (service : String) (w after : W) (size : String)
      → SizeIs comp service w size after
      → get_effective_disk_size o comp service w ≡ (ok size, after)
  unfolding get_effective_disk_size fetch_plans_from_cluster convert_plan_to_resource parse_plan
  size_back comp service w after size (own set same there) = rw set (rw (same, there) refl)
  size_back comp service w after size (neither unset planless same there) =
      rw (unset, planless) (rw (same, there) refl)
  size_back comp service w after size
        (planned unset plan (contents, plans, read, listed, (cpu, memory, disk, c, m, d, shown))) =
      let same = shown_back (resources cpu memory disk) size shown in
      rw (unset, plan, read, listed, c, m, d) (rw same refl)
