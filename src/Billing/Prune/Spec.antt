-- ===== src/Billing/Prune/Spec.antt =====
-- What the pruning of pkg/controller/billing/events.go leaves.
use appcat.Common.{
  ℕ, zero, suc, ◌+◌, ◌-◌, ◌≤◌, min, Bool, true, not, String, List, [], ◌∷◌, length, length-take,
  take, ◌⊎◌, count_if, keep_if, keep_if-drop_or_keep, All, ltb, eq_iff, ◌≡◌, refl, ap, ◌∙◌, arith,
  if◌then◌else◌, Bool-cases, inl, inr,
}
use appcat.Billing.Types.{BillingEvent}
use appcat.Billing.Prune.{is_sent, event_count, is_prunable, prune_events_if_needed}
use appcat.Billing.Prune.Marks.{
  Covers, excess, is_pruned, prune_spec, prune_events_if_needed-prune_spec,
}

pub keep_unsent-prune_spec :
    (quota : String → ℕ) (es : List BillingEvent)
    → keep_if (λ e. not (is_sent e)) (prune_spec quota es) ≡ keep_if (λ e. not (is_sent e)) es
unfolding prune_spec is_pruned
keep_unsent-prune_spec quota [] = refl
keep_unsent-prune_spec quota (e ∷ es) = ground (arith, keep_unsent-prune_spec quota es)

count_if-keep_if {ℓ} :
    {A : Type ℓ} (p : A → Bool) (xs : List A) → length (keep_if p xs) ≡ count_if p xs
count_if-keep_if p [] = refl
count_if-keep_if p (x ∷ xs) = ground (arith, count_if-keep_if p xs)

take-of_le {ℓ} : {A : Type ℓ} (n : ℕ) (xs : List A) → length xs ≤ n → take n xs ≡ xs
take-of_le zero [] h = refl
take-of_le zero (x ∷ xs) h = absurd (omega arith)
take-of_le (suc n) [] h = refl
take-of_le (suc n) (x ∷ xs) h = ap (◌∷◌ x) (take-of_le n xs (omega arith))

-- One step of the count down from the newest sent event of an instance.
take-step {ℓ} :
    {A : Type ℓ} (n : ℕ) (x : A) (xs : List A)
    → (if ltb (length xs) n then take (length xs - n) xs else x ∷ take (length xs - n) xs)
      ≡ take (suc (length xs) - n) (x ∷ xs)
take-step n x xs = elim (Bool-cases (ltb (length xs) n)) [
  | inl gone ↦
      let e : suc (length xs) - n ≡ 0 = ground arith in
      let e' : length xs - n ≡ 0 = ground arith in rw (gone, e, e')
  | inr kept ↦ let e : suc (length xs) - n ≡ suc (length xs - n) = ground arith in rw (kept, e)
]

is_pruned_of_prunable :
    (quota : String → ℕ) (id : String) (e : BillingEvent) (es : List BillingEvent)
    → is_prunable id e ≡ true
    → is_pruned quota e es ≡ ltb (count_if (is_prunable id) es) (quota id)
unfolding is_pruned is_prunable
is_pruned_of_prunable quota id e es h =
    let same : e.instance_id ≡ id = ground (arith, eq_iff e.instance_id id) in
    let is : is_sent e ≡ true = ground arith in
    rw is (ap (λ i. ltb (count_if (is_prunable i) es) (quota i)) same)

-- Of the sent events of an instance the newest are left.
keep_prunable-prune_spec :
    (quota : String → ℕ) (id : String) (es : List BillingEvent)
    → keep_if (is_prunable id) (prune_spec quota es)
      ≡ take (count_if (is_prunable id) es - quota id) (keep_if (is_prunable id) es)
unfolding prune_spec
keep_prunable-prune_spec quota id [] = let e : 0 - quota id ≡ 0 = omega arith in rw e
keep_prunable-prune_spec quota id (e ∷ es) =
    keep_if-drop_or_keep (is_prunable id) (is_pruned quota e es) e (prune_spec quota es)
    ∙ elim (Bool-cases (is_prunable id e)) [
      | inl hit ↦
          rw
            (
              hit,
              is_pruned_of_prunable quota id e es hit,
              keep_prunable-prune_spec quota id es,
              ← count_if-keep_if (is_prunable id) es,
            )
            (take-step (quota id) e (keep_if (is_prunable id) es))
      | inr miss ↦ rw miss (keep_prunable-prune_spec quota id es)
    ]

event_count-split :
    (id : String) (es : List BillingEvent)
    → event_count id es
      ≡ length (keep_if (is_prunable id) es) + event_count id (keep_if (λ e. not (is_sent e)) es)
unfolding event_count is_prunable
event_count-split id [] = refl
event_count-split id (e ∷ es) = ground (arith, event_count-split id es)

event_count-prune_spec :
    (quota : String → ℕ) (id : String) (es : List BillingEvent)
    → event_count id (prune_spec quota es)
      ≡ event_count id es - min (quota id) (count_if (is_prunable id) es)
event_count-prune_spec quota id es = omega (
  arith,
  event_count-split id es,
  event_count-split id (prune_spec quota es),
  ap (event_count id) (keep_unsent-prune_spec quota es),
  ap length (keep_prunable-prune_spec quota id es),
  length-take (count_if (is_prunable id) es - quota id) (keep_if (is_prunable id) es),
  count_if-keep_if (is_prunable id) es,
)

-- Whatever the order `ids` in which the map of instances is walked, if `ids` has every instance of
-- the list: all events that are not sent stay, in order; of the sent events of each instance the
-- newest stay, in order, and as many of the oldest go as the instance has events over the limit;
-- and an instance ends with more events than the limit only if none of them is sent.
pub prune_events_if_needed_lem :
    (ids : List String) (max_events : ℕ) (es : List BillingEvent)
    → All (Covers ids) es
    → let left = (prune_events_if_needed ids max_events es).0 in
      (keep_if (λ e. not (is_sent e)) left ≡ keep_if (λ e. not (is_sent e)) es)
      × ((id : String)
          → (keep_if (is_prunable id) left
              ≡ take
                  (count_if (is_prunable id) es - (event_count id es - max_events))
                  (keep_if (is_prunable id) es))
            × ((event_count id left ≤ max_events) ⊎ (count_if (is_prunable id) left ≡ 0)))
prune_events_if_needed_lem ids max_events es cover =
    rw (prune_events_if_needed-prune_spec ids max_events es cover)
      (keep_unsent-prune_spec quota es, λ id. (keep_prunable-prune_spec quota id es, within id))
  where
    quota : String → ℕ
    quota = excess max_events es

    within :
        (id : String)
        → (event_count id (prune_spec quota es) ≤ max_events)
          ⊎ (count_if (is_prunable id) (prune_spec quota es) ≡ 0)
    within id = omega (
      arith,
      event_count-prune_spec quota id es,
      ap length (keep_prunable-prune_spec quota id es),
      length-take (count_if (is_prunable id) es - quota id) (keep_if (is_prunable id) es),
      count_if-keep_if (is_prunable id) es,
      count_if-keep_if (is_prunable id) (prune_spec quota es),
    )
