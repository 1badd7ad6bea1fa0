-- ===== src/Billing/Conditions/Update.antt =====
-- What pkg/controller/billing/conditions.go reports.
use appcat.Common.{
  ℕ, Bool, true, false, not, String, List, [], ◌∷◌, Option, none, some, str_eq, eq_iff, eq_refl,
  ◌&&◌, ◌≡◌, refl, sym, subst, ap, ◌∙◌, arith, if◌then◌else◌, Bool-cases, Option-cases, inl, inr,
}
use appcat.Billing.Types.{Condition, BillingService}
use appcat.Billing.Events.{has_backlog}
use appcat.Billing.Client.{Client, Storage, ok, push_status-eq}
use appcat.Billing.Conditions.{
  find_condition_index, keep_transition, set_condition, synced_condition, ready_condition,
  update_status, is_none, same_status,
}

-- The first condition of a type.
abbrev pub condition : List Condition → String → Option Condition
condition [] t = none
condition (d ∷ ds) t = let rest = condition ds t in if str_eq d.type t then some d else rest

set_condition-miss :
    (now : ℕ) (e : Condition) (ds : List Condition) (d : Condition)
    → str_eq e.type d.type ≡ false
    → set_condition now (e ∷ ds) d ≡ e ∷ set_condition now ds d
unfolding set_condition find_condition_index
set_condition-miss now e ds d miss = elim (Option-cases (find_condition_index ds d.type)) [
  | inl nothing ↦ rw (miss, nothing)
  | inr (i, found) ↦ rw (miss, found)
]

set_condition-hit :
    (now : ℕ) (e : Condition) (ds : List Condition) (d : Condition)
    → str_eq e.type d.type ≡ true
    → set_condition now (e ∷ ds) d
      ≡ keep_transition (some e) (record d { last_transition_time = now }) ∷ ds
unfolding set_condition find_condition_index
set_condition-hit now e ds d hit = rw hit

keep_transition-type : (o : Option Condition) (d : Condition) → (keep_transition o d).type ≡ d.type
unfolding keep_transition
keep_transition-type none d = refl
keep_transition-type (some e) d = ground arith

-- Setting a condition changes that of its type, and no other; its transition time is kept where
-- there was one of the type with the same status and reason.
pub condition-set_condition :
    (now : ℕ) (ds : List Condition) (d : Condition) (t : String)
    → condition (set_condition now ds d) t ≡ (
        if str_eq d.type t
        then some (keep_transition (condition ds d.type) (record d { last_transition_time = now }))
        else condition ds t)
unfolding set_condition find_condition_index
condition-set_condition now [] d t = unfold keep_transition in refl
condition-set_condition now (e ∷ ds) d t = elim (Bool-cases (str_eq e.type d.type)) [
  | inl hit ↦
      let kept = keep_transition (some e) (record d { last_transition_time = now }) in
      let same : e.type ≡ d.type = (eq_iff e.type d.type).0 hit in
      ap (λ l. condition l t) (set_condition-hit now e ds d hit)
      ∙ ap (λ k. if str_eq k t then some kept else condition ds t)
          (keep_transition-type (some e) (record d { last_transition_time = now }))
      ∙ rw (hit, same) (ground arith)
  | inr miss ↦
      ap (λ l. condition l t) (set_condition-miss now e ds d miss)
      ∙ rw (miss, condition-set_condition now ds d t)
          (ground (arith, eq_iff e.type t, eq_iff d.type t, eq_iff e.type d.type))
]

-- Only the time of a condition that is set depends on the one that was there.
keep_transition-time :
    (o : Option Condition) (d : Condition)
    → (t : ℕ) × (keep_transition o d ≡ record d { last_transition_time = t })
unfolding keep_transition
keep_transition-time none d = (d.last_transition_time, refl)
keep_transition-time (some e) d =
    elim (Bool-cases (same_status e.status d.status && str_eq e.reason d.reason)) [
      | inl same ↦ (e.last_transition_time, rw same refl)
      | inr differs ↦ (d.last_transition_time, rw differs refl)
    ]

-- A condition that is there with this status, reason and generation.
abbrev pub Shows : Option Condition → Bool → String → ℕ → Type 0
Shows o status reason generation =
    (d : Condition) × (o ≡ some d)
    × (d.status ≡ status)
    × (d.reason ≡ reason)
    × (d.observed_generation ≡ generation)

set_condition-Shows :
    (now : ℕ) (ds : List Condition) (d : Condition)
    → Shows (condition (set_condition now ds d) d.type) d.status d.reason d.observed_generation
set_condition-Shows now ds d =
    let new = record d { last_transition_time = now } in
    let (t, kept) = keep_transition-time (condition ds d.type) new in
    (
      keep_transition (condition ds d.type) new,
      condition-set_condition now ds d d.type
          ∙ ap
              (λ b.
                if b then some (keep_transition (condition ds d.type) new) else condition ds d.type)
              (eq_refl d.type),
      ap (λ x. x.status) kept,
      ap (λ x. x.reason) kept,
      ap (λ x. x.observed_generation) kept,
    )

set_condition_other :
    (now : ℕ) (ds : List Condition) (d : Condition) (t : String)
    → str_eq d.type t ≡ false
    → condition (set_condition now ds d) t ≡ condition ds t
set_condition_other now ds d t differs = condition-set_condition now ds d t ∙ rw differs refl

module _ {W : Type 0} {c : Client W} {stored : W → BillingService}
    (storage : Storage c stored) where
  -- While no call fails, the update of the status succeeds and changes only the conditions. `Ready`
  -- says whether the object is live and `Synced` whether the queue has no backlog, each with the
  -- reason for that and the object's generation. The first condition of every other type is as before.
  pub update_status_lem :
      (svc : BillingService) (w : W) (t : String)
      → str_eq "Ready" t ≡ false
      → str_eq "Synced" t ≡ false
      → (ds : List Condition) × (w' : W) × (update_status c svc w
          ≡ (ok tt, record svc { conditions = ds }, w'))
        × Shows
            (condition ds "Ready")
            (is_none svc.deletion_timestamp)
            (if is_none svc.deletion_timestamp then "ReconcileSuccess" else "Deleting")
            svc.generation
        × Shows
            (condition ds "Synced")
            (not (has_backlog svc))
            (if not (has_backlog svc) then "AllEventsSent" else "PendingOrFailedEvents")
            svc.generation
        × (condition ds t ≡ condition svc.conditions t)
  unfolding update_status has_backlog synced_condition ready_condition
  update_status_lem svc w t not_ready not_synced = (
    ds₂,
    (c.status_update (record svc { conditions = ds₂ }) (c.now (c.now w).1).1).1,
    push_status-eq storage (record svc { conditions = ds₂ }) (c.now (c.now w).1).1,
    subst
        (λ o.
          Shows o (is_none svc.deletion_timestamp)
            (if is_none svc.deletion_timestamp then "ReconcileSuccess" else "Deleting")
            svc.generation)
        (sym (
          set_condition_other (c.now (c.now w).1).0 ds₁
            (synced_condition (record svc { conditions = ds₁ })) "Ready" refl))
        (set_condition-Shows (c.now w).0 svc.conditions (ready_condition svc)),
    set_condition-Shows (c.now (c.now w).1).0 ds₁
        (synced_condition (record svc { conditions = ds₁ })),
    set_condition_other (c.now (c.now w).1).0 ds₁ _ t not_synced
        ∙ set_condition_other (c.now w).0 svc.conditions _ t not_ready,
  )
    where
      ds₁ : List Condition
      ds₁ = set_condition (c.now w).0 svc.conditions (ready_condition svc)

      ds₂ : List Condition
      ds₂ =
          set_condition (c.now (c.now w).1).0 ds₁
            (synced_condition (record svc { conditions = ds₁ }))
