-- ===== src/Billing/Lifecycle/Enqueues.antt =====
-- How the delete events of pkg/controller/billing/delete.go change the event list and the map of
-- the instances seen.
use mathlib.Core.List.{append_assoc, map-append}
use appcat.Common.{
  ℕ, ◌≤◌, Bool, true, false, not, ◌&&◌, ◌||◌, String, List, [], ◌∷◌, ◌++◌, any, keep_if, All,
  length, str_eq, eq_iff, ◌≡◌, refl, sym, ap, ◌∙◌, arith, ◌⊎◌, inl, inr,
}
use appcat.Billing.Types.{BillingEvent, pending, deleted, type_eq}
use appcat.Billing.Prune.{is_sent, event_count}
use appcat.Billing.Lifecycle.{instance_ids}

abbrev pub unsent : List BillingEvent → List BillingEvent
unsent = keep_if (λ d. not (is_sent d))

abbrev pub has_delete : String → List BillingEvent → Bool
has_delete id = any (λ e. type_eq e.type deleted && str_eq e.instance_id id)

abbrev pub IsDelete : BillingEvent → Type 0
IsDelete e = (e.type ≡ deleted) × (e.state ≡ pending)

-- No text stands twice in a list.
abbrev pub Distinct : List String → Type 0
Distinct [] = Unit
Distinct (k ∷ ks) = (any (str_eq k) ks ≡ false) × Distinct ks

-- From `es` to `es'` the events `new` have been enqueued, and noted in `seen'`: they are pending
-- deletes of instances that were not seen; no unsent event is lost; nothing else is made up; and an
-- instance within the limit that has not been seen keeps its events.
pub record Enqueues (max_events : ℕ) (es : List BillingEvent) (seen : List String)
    (es' : List BillingEvent) (seen' : List String) : Type 0 where
  pub new : List BillingEvent
  pub deletes : All IsDelete new
  pub names : seen' ≡ instance_ids new ++ seen
  pub distinct : Distinct seen → Distinct seen'
  pub kept : unsent es' ≡ new ++ unsent es
  pub within : (p : BillingEvent → Bool) → any p es' ≡ true → any p (new ++ es) ≡ true
  pub untouched :
      (id : String)
      → any (str_eq id) seen' ≡ false
      → event_count id es ≤ max_events
      → keep_if (λ d. str_eq d.instance_id id) es' ≡ keep_if (λ d. str_eq d.instance_id id) es

abbrev pub Covered : List String → List BillingEvent → String → Type 0
Covered seen es id = (any (str_eq id) seen ≡ true) ⊎ (has_delete id es ≡ true)

pub any-append {ℓ} :
    {A : Type ℓ} (p : A → Bool) (xs ys : List A) → any p (xs ++ ys) ≡ (any p xs || any p ys)
any-append p [] ys = refl
any-append p (x ∷ xs) ys = ground (arith, any-append p xs ys)

All-append {ℓ κ} :
    {A : Type ℓ} (P : A → Type κ) (xs ys : List A) → All P xs → All P ys → All P (xs ++ ys)
All-append P [] ys h k = k
All-append P (x ∷ xs) ys h k = (h.0, All-append P xs ys h.1 k)

event_count-keep :
    (id : String) (es : List BillingEvent)
    → event_count id es ≡ length (keep_if (λ d. str_eq d.instance_id id) es)
unfolding event_count
event_count-keep id [] = refl
event_count-keep id (e ∷ es) = ground (arith, event_count-keep id es)

module _ (max_events : ℕ) where
  pub Enqueues-refl :
      (es : List BillingEvent) (seen : List String) → Enqueues max_events es seen es seen
  Enqueues-refl es seen = record {
    new = [];
    deletes = tt;
    names = refl;
    distinct = λ d. d;
    kept = refl;
    within = λ p h. h;
    untouched = λ id fresh fits. refl;
  }

  pub Enqueues-trans :
      (es₁ es₂ es₃ : List BillingEvent) (seen₁ seen₂ seen₃ : List String)
      → Enqueues max_events es₁ seen₁ es₂ seen₂
      → Enqueues max_events es₂ seen₂ es₃ seen₃
      → Enqueues max_events es₁ seen₁ es₃ seen₃
  Enqueues-trans es₁ es₂ es₃ seen₁ seen₂ seen₃ a b = record {
    new = b.new ++ a.new;
    deletes = All-append IsDelete b.new a.new b.deletes a.deletes;
    names =
        b.names
        ∙ ap (◌++◌ (instance_ids b.new)) a.names
        ∙ sym (append_assoc (instance_ids b.new) (instance_ids a.new) seen₁)
        ∙ sym (ap (λ ks. ks ++ seen₁) (map-append (λ e. e.instance_id) b.new a.new));
    distinct = λ d. b.distinct (a.distinct d);
    kept = b.kept ∙ ap (◌++◌ b.new) a.kept ∙ sym (append_assoc b.new a.new (unsent es₁));
    within = λ p h. ground (
      arith,
      a.within p,
      b.within p h,
      any-append p b.new es₂,
      any-append p a.new es₁,
      any-append p (b.new ++ a.new) es₁,
      any-append p b.new a.new,
    );
    untouched = λ id fresh fits.
        let earlier : any (str_eq id) seen₂ ≡ false = ground (
          arith,
          fresh,
          ap (any (str_eq id)) b.names,
          any-append (str_eq id) (instance_ids b.new) seen₂,
        ) in
        let same = a.untouched id earlier fits in
        b.untouched id fresh
          (omega (arith, fits, event_count-keep id es₁, event_count-keep id es₂, ap length same))
        ∙ same;
  }

module _ {max_events : ℕ} {es es' : List BillingEvent} {seen seen' : List String}
    (q : Enqueues max_events es seen es' seen') where
  pub seen_later : (id : String) → any (str_eq id) seen ≡ true → any (str_eq id) seen' ≡ true
  seen_later id h =
      ground (arith, ap (any (str_eq id)) q.names, any-append (str_eq id) (instance_ids q.new) seen)

  pub Covered-later :
      (all : List BillingEvent) (id : String) → Covered seen all id → Covered seen' all id
  Covered-later all id (inl h) = inl (seen_later id h)
  Covered-later all id (inr h) = inr h

  -- A delete event that was not there before is one of the new ones.
  pub Covered-before : (id : String) → has_delete id es' ≡ true → Covered seen' es id
  Covered-before id h =
      let here = q.within (λ e. type_eq e.type deleted && str_eq e.instance_id id) h in
      let named = new_named q.new in
      ground (
        arith,
        here,
        named,
        any-append (λ e. type_eq e.type deleted && str_eq e.instance_id id) q.new es,
        ap (any (str_eq id)) q.names,
        any-append (str_eq id) (instance_ids q.new) seen,
      )
    where
      new_named :
          (new : List BillingEvent)
          → has_delete id new ≡ true
          → any (str_eq id) (instance_ids new) ≡ true
      new_named [] k = cc
      new_named (e ∷ new) k =
          ground (arith, new_named new, eq_iff e.instance_id id, eq_iff id e.instance_id)
