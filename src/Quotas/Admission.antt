-- ===== src/Quotas/Admission.antt =====
-- When CheckQuotas of pkg/common/quotas/quotas.go lets an instance pass.
use appcat.Common.{
  ℕ, suc, true, false, String, List, [], ◌∷◌, length, All, Option, none, some, ◌≡◌, refl, subst,
  sym, ap, ◌∙◌, ◌↔◌, inl, inr, arith, Bool-cases,
}
use mathlib.Core.Bool.{true≢false}
use appcat.Common.Int.{ℤ, pos, ◌≤ℤ◌, leb_ℤ}
use appcat.Common.Results.{Result, ok, err, and_then, lookup}
use appcat.Webhooks.Disk.{Resources}
use appcat.Quotas.{
  StatusError, forbidden, Namespace, Sidecar, Cluster, QuotaChecker, Check, org_label,
}
use appcat.Quotas.Sidecars.{get_default_resources}
use appcat.Quotas.Limits.{
  checks, max_of, exceeds, found_errs, check_against_resources, quotas_for, sidecars_for,
  refuse_if_any, check_resources_against_quotas, get_org_from_namespace, get_namespace_overrides,
  limit_of, compare_namespaces, are_namespaces_within_quota, check_quotas,
}

reached_le : (limit : ℤ) (n : ℕ) → leb_ℤ limit (pos n) ≡ true → limit ≤ℤ pos n
reached_le limit n h = ground arith

below_lt : (limit : ℤ) (n : ℕ) → leb_ℤ limit (pos n) ≡ false → pos (suc n) ≤ℤ limit
below_lt limit n h = ground arith

not_both : (limit : ℤ) (n : ℕ) → pos (suc n) ≤ℤ limit → limit ≤ℤ pos n → ⊥
not_both limit n high low = omega arith

forbidden_err : {Q : Type 0} → Path (Result (StatusError Q) (Unit {0})) (err forbidden) (ok tt) → ⊥
forbidden_err h = cc

-- The organization's own limit, or 25.
abbrev pub namespace_limit : Option ℤ → ℤ
namespace_limit none = pos 25
namespace_limit (some override) = override

module _ {Q W : Type 0} (c : Cluster Q W) where
  -- An amount is not over its quota or, where that is zero, not over the default.
  pub data Fits (requested quota fallback : Q) : Type 0 where
    within_quota :
        c.plans.quantities.is_zero quota ≡ false
        → c.plans.quantities.less quota requested ≡ false
        → Fits requested quota fallback
    within_default :
        c.plans.quantities.is_zero quota ≡ true
        → c.plans.quantities.less fallback requested ≡ false
        → Fits requested quota fallback

  -- The five amounts, each with its own quota and default; the default disk is 1Ti.
  abbrev pub FitsAll : Resources Q → Resources Q → Resources Q → Type 0
  FitsAll r quota fallback =
      Fits r.cpu_requests quota.cpu_requests fallback.cpu_requests
      × Fits r.cpu_limits quota.cpu_limits fallback.cpu_limits
      × Fits r.memory_requests quota.memory_requests fallback.memory_requests
      × Fits r.memory_limits quota.memory_limits fallback.memory_limits
      × Fits r.disk quota.disk (c.amounts.new_quantity 1099511627776)

  Fits-iff :
      (k : Check Q)
      → (c.plans.quantities.less (max_of c k) k.requested ≡ false)
        ↔ Fits k.requested k.quota k.fallback
  unfolding max_of
  Fits-iff k = elim (Bool-cases (c.plans.quantities.is_zero k.quota)) [
    | inl zero ↦ rw zero (
      λ h. within_default zero h,
      λ h. elim h [
        | within_quota set fits ↦ absurd (true≢false (sym zero ∙ set))
        | within_default unset fits ↦ fits
      ],
    )
    | inr set ↦ rw set (
      λ h. within_quota set h,
      λ h. elim h [
        | within_quota set' fits ↦ fits
        | within_default unset fits ↦ absurd (true≢false (sym unset ∙ set))
      ],
    )
  ]

  limit_of_lem : (override : Option ℤ) → limit_of c override ≡ namespace_limit override
  limit_of_lem none = refl
  limit_of_lem (some override) = refl

  no_errs :
      {A : Type 0} (k : Check Q) (ks : List (Check Q))
      → (k.name, max_of c k, k.requested) ∷ found_errs c ks ≡ []
      → A
  no_errs k ks h = cc

  found_errs_lem :
      (ks : List (Check Q))
      → (found_errs c ks ≡ [])
        ↔ All (λ k. c.plans.quantities.less (max_of c k) k.requested ≡ false) ks
  unfolding found_errs exceeds
  found_errs_lem [] = (λ h. tt, λ h. refl)
  found_errs_lem (k ∷ ks) = elim (Bool-cases (c.plans.quantities.less (max_of c k) k.requested)) [
    | inl over ↦ (λ h. no_errs k ks (rw over at h), λ h. absurd (true≢false (sym over ∙ h.0)))
    | inr fits ↦ (
      λ h. (fits, (found_errs_lem ks).0 (rw fits at h)),
      λ h. rw fits ((found_errs_lem ks).1 h.1),
    )
  ]

  refuse_if_any_lem :
      (es : List (String × Q × Q)) (w : W) → ((refuse_if_any c es w).0 ≡ ok tt) ↔ (es ≡ [])
  unfolding refuse_if_any
  refuse_if_any_lem [] w = (λ h. refl, λ h. refl)
  refuse_if_any_lem (e ∷ es) w = (λ h. cc, λ h. cc)

  not_forbidden :
      (es : List (String × Q × Q)) (w : W) → (refuse_if_any c es w).0 ≡ err forbidden → ⊥
  unfolding refuse_if_any
  not_forbidden [] w h = cc
  not_forbidden (e ∷ es) w h = cc

  -- What the check reads: the organization of the claim, its namespaces, its own limit, and the sidecars
  -- and the quotas of the instance.
  pub record Reads (q : QuotaChecker Q) (w : W) (names : List String) (override : Option ℤ)
      (sidecars : List (String × Sidecar)) (quota : Resources Q) : Type 0 where
    pub ns : Namespace
    pub org : String
    pub w₁ : W
    pub w₂ : W
    pub w₃ : W
    pub w₄ : W
    pub w₅ : W
    pub claim_read : c.get_namespace q.claim_namespace w ≡ (ok ns, w₁)
    pub has_org : lookup org_label ns.labels ≡ some org
    pub org_valid : c.is_label_value org ≡ true
    pub listed : c.list_namespaces org w₁ ≡ (ok names, w₂)
    pub override_read : get_namespace_overrides c org w₂ ≡ (ok override, w₃)
    pub sidecars_read : sidecars_for c q.kind w₃ ≡ (ok sidecars, w₄)
    pub quotas_read : quotas_for c q.instance_namespace q.kind sidecars w₄ ≡ (ok quota, w₅)

  check_quotas-step :
      (q : QuotaChecker Q) (w : W) (names : List String) (override : Option ℤ)
      (sidecars : List (String × Sidecar)) (quota : Resources Q)
      (reads : Reads q w names override sidecars quota)
      → check_quotas c q w
        ≡ and_then (compare_namespaces c (length names) override reads.w₃) (λ _.
          check_resources_against_quotas c q.requested_resources q.instance_namespace q.kind)
  unfolding check_quotas get_org_from_namespace are_namespaces_within_quota
  check_quotas-step q w names override sidecars quota reads =
      rw (reads.claim_read, reads.has_org, reads.org_valid, reads.listed, reads.override_read) refl

  check_resources-step :
      (q : QuotaChecker Q) (w : W) (names : List String) (override : Option ℤ)
      (sidecars : List (String × Sidecar)) (quota : Resources Q)
      (reads : Reads q w names override sidecars quota)
      → check_resources_against_quotas c q.requested_resources q.instance_namespace q.kind reads.w₃
        ≡ refuse_if_any c
            (check_against_resources c q.requested_resources quota q.kind sidecars)
            reads.w₅
  unfolding check_resources_against_quotas
  check_resources-step q w names override sidecars quota reads =
      rw (reads.sidecars_read, reads.quotas_read) refl

  module _ (q : QuotaChecker Q) (w : W) (names : List String) (override : Option ℤ)
      (sidecars : List (String × Sidecar)) (quota : Resources Q)
      (reads : Reads q w names override sidecars quota) where
    abbrev errs : List (String × Q × Q)
    errs = check_against_resources c q.requested_resources quota q.kind sidecars

    at_limit :
        leb_ℤ (limit_of c override) (pos (length names)) ≡ true
        → (check_quotas c q w).0 ≡ err forbidden
    unfolding compare_namespaces
    at_limit reached =
        ap (λ z. z.0) (check_quotas-step q w names override sidecars quota reads) ∙ rw reached refl

    below_limit :
        leb_ℤ (limit_of c override) (pos (length names)) ≡ false
        → (check_quotas c q w).0 ≡ (refuse_if_any c errs reads.w₅).0
    unfolding compare_namespaces
    below_limit below =
        ap (λ z. z.0) (check_quotas-step q w names override sidecars quota reads)
        ∙ rw below (ap (λ z. z.0) (check_resources-step q w names override sidecars quota reads))

    errs_lem :
        (errs ≡ []) ↔ FitsAll q.requested_resources quota (get_default_resources c q.kind sidecars)
    unfolding check_against_resources checks
    errs_lem =
        let all =
          found_errs_lem
            (checks c q.requested_resources quota (get_default_resources c q.kind sidecars)) in
        (
          λ none_found.
              let (k₁, (k₂, (k₃, (k₄, (k₅, _))))) = all.0 none_found in
              (
                (Fits-iff _).0 k₁,
                (Fits-iff _).0 k₂,
                (Fits-iff _).0 k₃,
                (Fits-iff _).0 k₄,
                (Fits-iff _).0 k₅,
              ),
          λ (f₁, f₂, f₃, f₄, f₅). all.1 (
            (Fits-iff _).1 f₁,
            ((Fits-iff _).1 f₂, ((Fits-iff _).1 f₃, ((Fits-iff _).1 f₄, ((Fits-iff _).1 f₅, tt)))),
          ),
        )

  -- Given what the check reads: it passes exactly if the organization has fewer namespaces than its limit,
  -- which is its own one or 25, and none of the five amounts is over its quota or,
  -- where that is zero, its default. At the limit the answer is that the
  -- instance is forbidden, whatever it asks for.
  pub check_quotas_iff :
      (q : QuotaChecker Q) (w : W) (names : List String) (override : Option ℤ)
      (sidecars : List (String × Sidecar)) (quota : Resources Q)
      (reads : Reads q w names override sidecars quota)
      → (((check_quotas c q w).0 ≡ ok tt)
          ↔ (pos (suc (length names)) ≤ℤ namespace_limit override)
            × FitsAll q.requested_resources quota (get_default_resources c q.kind sidecars))
        × (((check_quotas c q w).0 ≡ err forbidden)
            ↔ (namespace_limit override ≤ℤ pos (length names)))
  check_quotas_iff q w names override sidecars quota reads =
      let es = errs q w names override sidecars quota reads in
      let fits = errs_lem q w names override sidecars quota reads in
      let passes = refuse_if_any_lem es reads.w₅ in
      elim (Bool-cases (leb_ℤ (limit_of c override) (pos (length names)))) [
        | inl reached ↦
            let low =
              subst (λ l. l ≤ℤ pos (length names)) (limit_of_lem override)
                (reached_le (limit_of c override) (length names) reached) in
            let answer = at_limit q w names override sidecars quota reads reached in
            (
              (
                λ h. absurd (forbidden_err (sym answer ∙ h)),
                λ h. absurd (not_both (namespace_limit override) (length names) h.0 low),
              ),
              (λ h. low, λ h. answer),
            )
        | inr below ↦
            let high =
              subst (λ l. pos (suc (length names)) ≤ℤ l) (limit_of_lem override)
                (below_lt (limit_of c override) (length names) below) in
            let answer = below_limit q w names override sidecars quota reads below in
            (
              (
                λ h. (high, fits.0 (passes.0 (sym answer ∙ h))),
                λ h. answer ∙ passes.1 (fits.1 h.1),
              ),
              (
                λ h. absurd (not_forbidden es reads.w₅ (sym answer ∙ h)),
                λ h. absurd (not_both (namespace_limit override) (length names) high h),
              ),
            )
      ]
