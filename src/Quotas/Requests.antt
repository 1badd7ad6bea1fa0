-- ===== src/Quotas/Requests.antt =====
-- What checkQuotas of pkg/controller/webhooks/default_handler.go asks for, and which sizes it refuses.
use appcat.Common.{
  Bool, true, false, ◌&&◌, not, String, str_eq, List, [], ◌∷◌, ◌++◌, keep_if, map, Option, none,
  some, ◌≡◌, refl, sym, ap, ◌∙◌, ◌⊎◌, inl, inr, Bool-cases, Option-cases, if◌then◌else◌,
}
use mathlib.Core.List.{append-nil}
use appcat.Common.Results.{Result, ok, err}
use appcat.Webhooks.Disk.{Resources}
use appcat.Quotas.{StatusError, invalid_sizes, Cluster, Size, multiply_by}
use appcat.Quotas.Limits.{check_quotas as check_organization}
use appcat.Quotas.Sizes.{
  Composite, Handler, Paths, add_paths_to_resources, parse_resource, overwrite, overwrite_all,
  resources_of_plan, check_sizes, check_quotas,
}

module _ {Q W : Type 0} (c : Cluster Q W) (h : Handler) where
  -- The sizes of a composite with their paths, in the order of the check.
  abbrev pub fields : Paths → Size → List (String × String)
  fields paths s =
      (paths.cpu_limits, s.cpu)
      ∷ (paths.cpu_requests, s.requests_cpu)
      ∷ (paths.memory_limits, s.memory)
      ∷ (paths.memory_requests, s.requests_memory)
      ∷ (paths.disk, s.disk)
      ∷ []

  abbrev is_quantity : Option Q → Bool
  is_quantity none = false
  is_quantity (some q) = true

  -- A size that is set and is no quantity.
  abbrev pub is_bad : String × String → Bool
  is_bad (path, text) =
      not (str_eq text "") && not (is_quantity (c.plans.quantities.parse_quantity text))

  abbrev pub bad_paths : Paths → Size → List String
  bad_paths paths s = map (λ f. f.0) (keep_if is_bad (fields paths s))

  abbrev quantity_or : Q → Option Q → Q
  quantity_or old none = old
  quantity_or old (some q) = q

  -- The size if it is set, and else what the plan has.
  abbrev pub size_or : String → Q → Q
  size_or text old =
      if str_eq text "" then old else quantity_or old (c.plans.quantities.parse_quantity text)

  abbrev pub asked_for : Size → Resources Q → Resources Q
  asked_for s r = record {
    cpu_requests = size_or s.requests_cpu r.cpu_requests;
    cpu_limits = size_or s.cpu r.cpu_limits;
    memory_requests = size_or s.requests_memory r.memory_requests;
    memory_limits = size_or s.memory r.memory_limits;
    disk = size_or s.disk r.disk;
  }

  abbrev one_bad : String × String → List String
  one_bad f = if is_bad f then f.0 ∷ [] else []

  overwrite_lem :
      (path text : String) (old : Q)
      → (overwrite c h path text old ≡ (size_or text old, one_bad (path, text)))
        ⊎ (overwrite c h path text old ≡ (c.amounts.zero_quantity, path ∷ []))
          × (is_bad (path, text) ≡ true)
  unfolding overwrite parse_resource
  overwrite_lem path text old = elim (Bool-cases (str_eq text "")) [
    | inl empty ↦ inl (rw empty refl)
    | inr given ↦ elim (Option-cases (c.plans.quantities.parse_quantity text)) [
      | inl bad ↦ inr (rw (given, bad) refl, rw (given, bad) refl)
      | inr (q, parsed) ↦ inl (rw (given, parsed) refl)
    ]
  ]

  overwrite_errs :
      (path text : String) (old : Q) → (overwrite c h path text old).1 ≡ one_bad (path, text)
  overwrite_errs path text old = elim (overwrite_lem path text old) [
    | inl good ↦ ap (λ z. z.1) good
    | inr (bad, is) ↦ ap (λ z. z.1) bad ∙ rw is refl
  ]

  overwrite_good :
      (path text : String) (old : Q)
      → one_bad (path, text) ≡ []
      → (overwrite c h path text old).0 ≡ size_or text old
  overwrite_good path text old none_bad = elim (overwrite_lem path text old) [
    | inl good ↦ ap (λ z. z.0) good
    | inr (bad, is) ↦ let clash : path ∷ [] ≡ [] = rw is at none_bad in cc
  ]

  -- A filter, entry by entry.
  bad_cons :
      (f : String × String) (fs : List (String × String))
      → map (λ g. g.0) (keep_if is_bad (f ∷ fs)) ≡ one_bad f ++ map (λ g. g.0) (keep_if is_bad fs)
  bad_cons f fs = elim (Bool-cases (is_bad f)) [ inl bad ↦ rw bad refl | inr good ↦ rw good refl ]

  overwrite_all-errs :
      (paths : Paths) (s : Size) (r : Resources Q)
      → (overwrite_all c h paths s r).1 ≡ bad_paths paths s
  unfolding overwrite_all
  overwrite_all-errs paths s r =
      let f₁ : String × String = (paths.cpu_limits, s.cpu) in
      let f₂ : String × String = (paths.cpu_requests, s.requests_cpu) in
      let f₃ : String × String = (paths.memory_limits, s.memory) in
      let f₄ : String × String = (paths.memory_requests, s.requests_memory) in
      let f₅ : String × String = (paths.disk, s.disk) in
      rw
        (
          overwrite_errs paths.cpu_limits s.cpu r.cpu_limits,
          overwrite_errs paths.cpu_requests s.requests_cpu r.cpu_requests,
          overwrite_errs paths.memory_limits s.memory r.memory_limits,
          overwrite_errs paths.memory_requests s.requests_memory r.memory_requests,
          overwrite_errs paths.disk s.disk r.disk,
        )
        (sym (
          bad_cons f₁ (f₂ ∷ (f₃ ∷ (f₄ ∷ (f₅ ∷ []))))
          ∙ ap (◌++◌ (one_bad f₁)) (
              bad_cons f₂ (f₃ ∷ (f₄ ∷ (f₅ ∷ [])))
              ∙ ap (◌++◌ (one_bad f₂)) (
                  bad_cons f₃ (f₄ ∷ (f₅ ∷ []))
                  ∙ ap (◌++◌ (one_bad f₃)) (
                      bad_cons f₄ (f₅ ∷ [])
                      ∙ ap (◌++◌ (one_bad f₄)) (bad_cons f₅ [] ∙ append-nil (one_bad f₅)))))))

  nil_parts : (xs ys : List String) → xs ++ ys ≡ [] → (xs ≡ []) × (ys ≡ [])
  nil_parts [] ys none_bad = (refl, none_bad)
  nil_parts (x ∷ xs) ys none_bad = cc

  bad_cons_nil :
      (f : String × String) (fs : List (String × String))
      → map (λ g. g.0) (keep_if is_bad (f ∷ fs)) ≡ []
      → (one_bad f ≡ []) × (map (λ g. g.0) (keep_if is_bad fs) ≡ [])
  bad_cons_nil f fs none_bad = nil_parts _ _ (sym (bad_cons f fs) ∙ none_bad)

  overwrite_all_good :
      (paths : Paths) (s : Size) (r : Resources Q)
      → bad_paths paths s ≡ []
      → (overwrite_all c h paths s r).0 ≡ asked_for s r
  unfolding overwrite_all
  overwrite_all_good paths s r none_bad =
      let f₁ : String × String = (paths.cpu_limits, s.cpu) in
      let f₂ : String × String = (paths.cpu_requests, s.requests_cpu) in
      let f₃ : String × String = (paths.memory_limits, s.memory) in
      let f₄ : String × String = (paths.memory_requests, s.requests_memory) in
      let f₅ : String × String = (paths.disk, s.disk) in
      let (g₁, rest₁) = bad_cons_nil f₁ (f₂ ∷ (f₃ ∷ (f₄ ∷ (f₅ ∷ [])))) none_bad in
      let (g₂, rest₂) = bad_cons_nil f₂ (f₃ ∷ (f₄ ∷ (f₅ ∷ []))) rest₁ in
      let (g₃, rest₃) = bad_cons_nil f₃ (f₄ ∷ (f₅ ∷ [])) rest₂ in
      let (g₄, rest₄) = bad_cons_nil f₄ (f₅ ∷ []) rest₃ in
      let (g₅, rest₅) = bad_cons_nil f₅ [] rest₄ in
      rw
        (
          overwrite_good paths.cpu_limits s.cpu r.cpu_limits g₁,
          overwrite_good paths.cpu_requests s.requests_cpu r.cpu_requests g₂,
          overwrite_good paths.memory_limits s.memory r.memory_limits g₃,
          overwrite_good paths.memory_requests s.requests_memory r.memory_requests g₄,
          overwrite_good paths.disk s.disk r.disk g₅,
        )
        refl

  -- All bad sizes in one error, or else the check of the organization for what is asked for.
  abbrev pub answer :
      Composite → Resources Q → W → List String → Result (StatusError Q) (Unit {0}) × W
  answer comp r w (e ∷ es) = (err (invalid_sizes (e ∷ es)), w)
  answer comp r w [] =
      check_organization c
        (record {
          requested_resources = multiply_by c.amounts comp.instances (asked_for comp.size r);
          instance_namespace = comp.instance_namespace;
          claim_namespace = comp.namespace;
          kind = h.kind;
          instances = comp.instances;
        })
        w

  check_sizes_lem :
      (comp : Composite) (r asked : Resources Q) (errs bad : List String) (w : W)
      → errs ≡ bad
      → (bad ≡ [] → asked ≡ asked_for comp.size r)
      → check_sizes c h comp (asked, errs) w ≡ answer comp r w bad
  unfolding check_sizes
  check_sizes_lem comp r asked (e ∷ es) bad w same good = ap (answer comp r w) same
  check_sizes_lem comp r asked [] bad w same good = rw (good (sym same)) (ap (answer comp r w) same)

  -- If the plan, where there is one, could be read: the sizes that are set and are no quantities are all
  -- refused in one answer, by their paths, and nothing more is asked. Without such sizes the check of the
  -- organization gets what each size says or, where it is not set, what the plan has, times the number of
  -- instances.
  pub check_quotas_lem :
      (comp : Composite) (r : Resources Q) (w w₁ : W)
      → resources_of_plan c h comp.size.plan w ≡ (ok r, w₁)
      → check_quotas c h comp w
        ≡ answer comp r w₁ (bad_paths (add_paths_to_resources (str_eq h.name "redis")) comp.size)
  unfolding check_quotas
  check_quotas_lem comp r w w₁ read =
      let paths = add_paths_to_resources (str_eq h.name "redis") in
      rw read (
        check_sizes_lem comp r _ _ _ w₁ (overwrite_all-errs paths comp.size r)
          (overwrite_all_good paths comp.size r))
