-- ===== src/Billing/Prune/Marks.antt =====
-- Which indices the pruning of pkg/controller/billing/events.go marks, whatever the order in which
-- the map of instances is walked.
use mathlib.Core.List.{append_assoc, append-nil}
use mathlib.Core.Path.{fun_ext}
use appcat.Common.{
  ℕ, zero, suc, ◌-◌, ◌≤◌, ◌<◌, min, Bool, true, false, ◌&&◌, ◌||◌, String, List, [], ◌∷◌, ◌++◌,
  length, length-append, take, count_if, any, All, leb, ltb, ◌==◌, str_eq, eq_iff, ◌≡◌, refl, sym,
  ap, ◌∙◌, arith, if◌then◌else◌, Bool-cases, inl, inr,
}
use appcat.Billing.Types.{BillingEvent}
use appcat.Billing.Prune.{
  is_sent, event_count, is_prunable, prunable_indices, marks, events_to_remove, contains, survivors,
  prune_events_if_needed,
}

contains-append :
    (i : ℕ) (xs ys : List ℕ) → contains i (xs ++ ys) ≡ (contains i xs || contains i ys)
unfolding contains
contains-append i [] ys = refl
contains-append i (x ∷ xs) ys = ground (arith, contains-append i xs ys)

contains-take : (i n : ℕ) (xs : List ℕ) → contains i xs ≡ false → contains i (take n xs) ≡ false
unfolding contains
contains-take i zero xs h = refl
contains-take i (suc n) [] h = refl
contains-take i (suc n) (x ∷ xs) h = ground (arith, contains-take i n xs)

contains-single_below : (i j : ℕ) (m : Bool) → j < i → contains j (if m then i ∷ [] else []) ≡ false
unfolding contains
contains-single_below i j m h = ground arith

contains-single_above :
    (i j : ℕ) (m : Bool) → suc i ≤ j → contains j (if m then i ∷ [] else []) ≡ false
unfolding contains
contains-single_above i j m h = ground arith

contains-prunable_indices :
    (id : String) (i j : ℕ) (es : List BillingEvent)
    → j < i
    → contains j (prunable_indices id i es) ≡ false
unfolding prunable_indices
contains-prunable_indices id i j [] h = contains-single_below i j false h
contains-prunable_indices id i j (e ∷ es) h =
    contains-append j (prunable_indices id (suc i) es) (if is_prunable id e then i ∷ [] else [])
    ∙ rw (
      contains-prunable_indices id (suc i) j es (omega arith),
      contains-single_below i j (is_prunable id e) h,
    )

length-prunable_indices :
    (id : String) (i : ℕ) (es : List BillingEvent)
    → length (prunable_indices id i es) ≡ count_if (is_prunable id) es
unfolding prunable_indices
length-prunable_indices id i [] = refl
length-prunable_indices id i (e ∷ es) =
    length-append (prunable_indices id (suc i) es) (if is_prunable id e then i ∷ [] else [])
    ∙ ground (arith, length-prunable_indices id (suc i) es)

-- An index that only the middle of a list can hold, cut off at `n`.
contains-take_middle :
    (i n : ℕ) (m : Bool) (xs ys : List ℕ)
    → contains i xs ≡ false
    → contains i ys ≡ false
    → contains i (take n (xs ++ ((if m then i ∷ [] else []) ++ ys))) ≡ (m && ltb (length xs) n)
unfolding contains
contains-take_middle i zero m xs ys h k = ground arith
contains-take_middle i (suc n) true [] ys h k = ground (arith, contains-take i n ys)
contains-take_middle i (suc n) false [] ys h k = contains-take i (suc n) ys k
contains-take_middle i (suc n) m (x ∷ xs) ys h k = ground (arith, contains-take_middle i n m xs ys)

take-min {ℓ} : {A : Type ℓ} (n : ℕ) (xs : List A) → take (min n (length xs)) xs ≡ take n xs
take-min zero xs = let e : min 0 (length xs) ≡ 0 = omega arith in rw e
take-min (suc n) [] = let e : min (suc n) 0 ≡ 0 = omega arith in rw e
take-min (suc n) (x ∷ xs) =
    let e : min (suc n) (suc (length xs)) ≡ suc (min n (length xs)) = omega arith in
    rw e (ap (◌∷◌ x) (take-min n xs))

-- The number of events of an instance over the limit, cut at 0.
abbrev pub excess : ℕ → List BillingEvent → String → ℕ
excess max_events es id = event_count id es - max_events

-- Where the count is within the limit the excess is 0, so the source's guard adds nothing.
marks_lem :
    (max_events : ℕ) (es : List BillingEvent) (id : String)
    → marks max_events es id ≡ take (excess max_events es id) (prunable_indices id 0 es)
unfolding marks
marks_lem max_events es id = elim (Bool-cases (leb (event_count id es) max_events)) [
  | inl few ↦ let e : excess max_events es id ≡ 0 = ground arith in rw (few, e)
  | inr many ↦ rw many (take-min (excess max_events es id) (prunable_indices id 0 es))
]

-- Whether the event at the head of a suffix is to go, by the suffix alone: it is sent, and fewer
-- sent events of its instance are older than the instance's quota.
unfoldable pub is_pruned : (String → ℕ) → BillingEvent → List BillingEvent → Bool
is_pruned quota e older =
    is_sent e && ltb (count_if (is_prunable e.instance_id) older) (quota e.instance_id)

contains-events_to_remove :
    (max_events i : ℕ) (es : List BillingEvent) (ids : List String)
    → contains i (events_to_remove max_events es ids)
      ≡ any (λ id. contains i (marks max_events es id)) ids
unfolding events_to_remove
contains-events_to_remove max_events i es [] = unfold contains in refl
contains-events_to_remove max_events i es (id ∷ ids) =
    contains-append i (marks max_events es id) (events_to_remove max_events es ids)
    ∙ ap (◌||◌ (contains i (marks max_events es id)))
        (contains-events_to_remove max_events i es ids)

abbrev pub Covers : List String → BillingEvent → Type 0
Covers ids e = any (str_eq e.instance_id) ids ≡ true

-- Exactly one key of the map is the event's instance.
any-instance :
    (e : BillingEvent) (f : String → Bool) (ids : List String)
    → any (λ id. is_prunable id e && f id) ids
      ≡ (any (str_eq e.instance_id) ids && (is_sent e && f e.instance_id))
unfolding is_prunable
any-instance e f [] = refl
any-instance e f (id ∷ ids) = elim (Bool-cases (str_eq e.instance_id id)) [
  | inl same ↦
      let p = (eq_iff e.instance_id id).0 same in
      rw (same, ← p) (ground (arith, any-instance e f ids))
  | inr other ↦ rw other (any-instance e f ids)
]

-- From index `i` on, the marked indices are those of the events that are to go.
abbrev Agrees : (ℕ → Bool) → (String → ℕ) → ℕ → List BillingEvent → Type 0
Agrees marked quota i [] = Unit
Agrees marked quota i (e ∷ es) = (marked i ≡ is_pruned quota e es) × Agrees marked quota (suc i) es

unfoldable pub prune_spec : (String → ℕ) → List BillingEvent → List BillingEvent
prune_spec quota [] = []
prune_spec quota (e ∷ es) =
    let rest = prune_spec quota es in if is_pruned quota e es then rest else e ∷ rest

survivors-prune_spec :
    (remove : List ℕ) (quota : String → ℕ) (i : ℕ) (es : List BillingEvent)
    → Agrees (λ j. contains j remove) quota i es
    → survivors remove i es ≡ prune_spec quota es
unfolding survivors prune_spec
survivors-prune_spec remove quota i [] h = refl
survivors-prune_spec remove quota i (e ∷ es) h =
    rw (h.0, survivors-prune_spec remove quota (suc i) es h.1)

module _ (max_events : ℕ) (all : List BillingEvent) (ids : List String) where
  -- `before id` holds the marks at the indices that have been passed, all under `i`.
  Agrees-events_to_remove :
      (i : ℕ) (es : List BillingEvent) (before : String → List ℕ)
      → ((id : String) → prunable_indices id 0 all ≡ prunable_indices id i es ++ before id)
      → ((id : String) (j : ℕ) → i ≤ j → contains j (before id) ≡ false)
      → All (Covers ids) es
      → Agrees (λ j. contains j (events_to_remove max_events all ids)) (excess max_events all) i es
  unfolding is_pruned prunable_indices
  Agrees-events_to_remove i [] before split passed cover = tt
  Agrees-events_to_remove i (e ∷ es) before split passed cover = (
    contains-events_to_remove max_events i all ids
        ∙ rw (fun_ext here) (any-instance e _ ids ∙ rw cover.0),
    Agrees-events_to_remove (suc i) es
        (λ id. (if is_prunable id e then i ∷ [] else []) ++ before id)
        (λ id.
          split id
          ∙ append_assoc (prunable_indices id (suc i) es) (if is_prunable id e then i ∷ [] else [])
              (before id))
        (λ id j le.
          contains-append j (if is_prunable id e then i ∷ [] else []) (before id)
          ∙ rw (contains-single_above i j (is_prunable id e) le, passed id j (omega arith)))
        cover.1,
  )
    where
      here :
          (id : String)
          → contains i (marks max_events all id)
            ≡ (is_prunable id e && ltb (count_if (is_prunable id) es) (excess max_events all id))
      here id =
          rw (marks_lem max_events all id, split id, append_assoc)
            (contains-take_middle i (excess max_events all id) (is_prunable id e)
                (prunable_indices id (suc i) es) (before id)
                (contains-prunable_indices id (suc i) i es (omega arith))
                (passed id i (omega arith))
              ∙ rw (length-prunable_indices id (suc i) es))

contains-none : (i : ℕ) → contains i [] ≡ false
unfolding contains
contains-none i = refl

survivors-none : (i : ℕ) (es : List BillingEvent) → survivors [] i es ≡ es
unfolding survivors contains
survivors-none i [] = refl
survivors-none i (e ∷ es) = ap (◌∷◌ e) (survivors-none (suc i) es)

length-zero : (xs : List ℕ) → (length xs == 0) ≡ true → xs ≡ []
length-zero [] h = refl
length-zero (x ∷ xs) h = absurd (ground arith)

-- Over any list that covers the instances, the code's marks and the rebuilt list come to the
-- one pass by the suffix.
pub prune_events_if_needed-prune_spec :
    (ids : List String) (max_events : ℕ) (es : List BillingEvent)
    → All (Covers ids) es
    → (prune_events_if_needed ids max_events es).0 ≡ prune_spec (excess max_events es) es
unfolding prune_events_if_needed
prune_events_if_needed-prune_spec ids max_events es cover = elim (Bool-cases (length remove == 0)) [
  | inl nothing ↦ rw nothing (
      sym (survivors-none 0 es)
      ∙ ap (λ xs. survivors xs 0 es) (sym (length-zero remove nothing))
      ∙ rebuilt)
  | inr some_marks ↦ rw some_marks rebuilt
]
  where
    remove : List ℕ
    remove = events_to_remove max_events es ids

    rebuilt : survivors remove 0 es ≡ prune_spec (excess max_events es) es
    rebuilt = survivors-prune_spec remove (excess max_events es) 0 es (
        Agrees-events_to_remove max_events es ids 0 es (λ id. [])
          (λ id. sym (append-nil (prunable_indices id 0 es))) (λ id j le. contains-none j) cover)
