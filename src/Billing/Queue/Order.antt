-- ===== src/Billing/Queue/Order.antt =====
-- Which event processQueue of pkg/controller/billing/delivery.go takes.
use appcat.Common.{
  ℕ, suc, ◌+◌, ◌≤◌, ◌<◌, Bool, true, false, List, [], ◌∷◌, Option, none, some, get_elem?, drop, All,
  All-mono, All-zip, All-drop, All-any-false, any-false-All, All-of_forall, All-get_elem?,
  All-drop_get, All-set, set, drop-set, get_elem?-set_self, sym, ltb, ◌==◌, All-of_forall, ◌≡◌,
  refl, ◌↔◌, ◌⊎◌, arith, Bool-cases, inl, inr, ap, ◌∙◌,
}
use appcat.Billing.Types.{
  EventState, EventType, BillingEvent, BillingService, pending, sent, failed, superseded, resend,
  deleted,
}
use appcat.Billing.Events.{opts_match, find_from, find_event, is_open, has_backlog, FindEventOpts}
use appcat.Billing.Queue.{
  resend_opts, failed_opts, pending_delete_opts, pending_opts, or_else, next_event,
}

-- The priorities that processQueue's comment lists.
abbrev priority : EventState → EventType → ℕ
priority resend t = 0
priority failed t = 1
priority pending deleted = 2
priority pending t = 3
priority sent t = 4
priority superseded t = 4

abbrev pub rank : BillingEvent → ℕ
rank e = priority e.state e.type

abbrev IsOldest : (BillingEvent → Bool) → List BillingEvent → ℕ → BillingEvent → Type 0
IsOldest p es k e =
    (get_elem? es k ≡ some e) × (p e ≡ true) × All (λ d. p d ≡ false) (drop (suc k) es)

-- The search from index `i`: nothing matches, or the last match of the list is returned.
find_from-cases :
    (p : BillingEvent → Bool) (i : ℕ) (es : List BillingEvent)
    → ((find_from p i es ≡ none) × All (λ d. p d ≡ false) es)
      ⊎ ((k : ℕ) × (e : BillingEvent) × (find_from p i es ≡ some (i + k, e)) × IsOldest p es k e)
unfolding find_from
find_from-cases p i [] = inl (refl, tt)
find_from-cases p i (e ∷ es) = elim (find_from-cases p (suc i) es) [
  | inr (k, d, found, oldest) ↦
      let shift : suc i + k ≡ i + suc k = omega arith in
      inr (suc k, d, rw found (ap (λ n. some (n, d)) shift), oldest)
  | inl (nothing, clear) ↦ elim (Bool-cases (p e)) [
    | inl hit ↦
        let start : i ≡ i + 0 = omega arith in
        inr (0, e, rw (nothing, hit) (ap (λ n. some (n, e)) start), (refl, hit, clear))
    | inr miss ↦ inl (rw (nothing, miss), (miss, clear))
  ]
]

find_event-cases :
    (svc : BillingService) (opts : FindEventOpts)
    → ((find_event svc opts ≡ none) × All (λ d. opts_match opts d ≡ false) svc.events)
      ⊎ ((k : ℕ) × (e : BillingEvent) × (find_event svc opts ≡ some (k, e))
          × IsOldest (opts_match opts) svc.events k e)
unfolding find_event
find_event-cases svc opts = elim (find_from-cases (opts_match opts) 0 svc.events) [
  | inl r ↦ inl r
  | inr (k, e, found, oldest) ↦
      let start : 0 + k ≡ k = omega arith in inr (k, e, found ∙ ap (λ n. some (n, e)) start, oldest)
]

-- Among the events of rank `r` or less urgent, a search takes those of rank `r`.
abbrev Picks : FindEventOpts → ℕ → Type 0
Picks opts r = (d : BillingEvent) → r ≤ rank d → opts_match opts d ≡ (rank d == r)

resend-Picks : Picks resend_opts 0
unfolding opts_match
resend-Picks d h = ground arith

failed-Picks : Picks failed_opts 1
unfolding opts_match
failed-Picks d h = ground arith

pending_delete-Picks : Picks pending_delete_opts 2
unfolding opts_match
pending_delete-Picks d h = ground arith

pending-Picks : Picks pending_opts 3
unfolding opts_match
pending-Picks d h = ground arith

-- The event at index `i` is to be delivered next: it is open, no event of the list is more urgent,
-- and all that are older (further back) are less urgent.
pub record IsNext (es : List BillingEvent) (i : ℕ) (e : BillingEvent) : Type 0 where
  pub at : get_elem? es i ≡ some e
  pub urgent : rank e < 4
  pub first : All (λ d. rank e ≤ rank d) es
  pub oldest : All (λ d. rank e < rank d) (drop (suc i) es)

-- An answer of the chain of searches from some search on.
abbrev Answers : List BillingEvent → Option (ℕ × BillingEvent) → Type 0
Answers es o =
    ((o ≡ none) × All (λ d. 4 ≤ rank d) es)
    ⊎ ((i : ℕ) × (e : BillingEvent) × (o ≡ some (i, e)) × IsNext es i e)

above :
    (p : BillingEvent → Bool) (r : ℕ) (es : List BillingEvent)
    → ((d : BillingEvent) → r ≤ rank d → p d ≡ (rank d == r))
    → All (λ d. r ≤ rank d) es
    → All (λ d. p d ≡ false) es
    → All (λ d. suc r ≤ rank d) es
above p r es picks least clear =
    All-mono (λ d. (p d ≡ false) × (r ≤ rank d)) (λ d. suc r ≤ rank d)
      (λ d h. ground (arith, picks d h.1)) es
      (All-zip (λ d. p d ≡ false) (λ d. r ≤ rank d) es clear least)

oldest-IsNext :
    (p : BillingEvent → Bool) (r : ℕ) (es : List BillingEvent) (i : ℕ) (e : BillingEvent)
    → r < 4
    → ((d : BillingEvent) → r ≤ rank d → p d ≡ (rank d == r))
    → All (λ d. r ≤ rank d) es
    → IsOldest p es i e
    → IsNext es i e
oldest-IsNext p r es i e few picks least found =
    let is : rank e ≡ r =
      ground (arith, picks e, All-get_elem? (λ d. r ≤ rank d) es i least found.0, found.1) in
    record {
      at = found.0;
      urgent = omega arith;
      first = rw is least;
      oldest =
          rw is (
            above p r (drop (suc i) es) picks (All-drop (λ d. r ≤ rank d) (suc i) es least)
              found.2);
    }

-- One search of the chain, with the answers of those behind it.
search-Answers :
    (svc : BillingService) (opts : FindEventOpts) (r : ℕ) (rest : Option (ℕ × BillingEvent))
    → r < 4
    → Picks opts r
    → (All (λ d. suc r ≤ rank d) svc.events → Answers svc.events rest)
    → All (λ d. r ≤ rank d) svc.events
    → Answers svc.events (or_else (find_event svc opts) rest)
search-Answers svc opts r rest few picks further least = elim (find_event-cases svc opts) [
  | inr (i, e, found, oldest) ↦
      inr (i, e, rw found, oldest-IsNext (opts_match opts) r svc.events i e few picks least oldest)
  | inl (nothing, clear) ↦
      rw nothing (further (above (opts_match opts) r svc.events picks least clear))
]

or_else-none : (o : Option (ℕ × BillingEvent)) → or_else o none ≡ o
or_else-none none = refl
or_else-none (some r) = refl

-- Either nothing is taken and no event is open, or the event that is taken is open, no event is
-- more urgent (resend, then failed, then pending deletes, then all pending), and all events that
-- are older are less urgent.
pub next_event-Answers : (svc : BillingService) → Answers svc.events (next_event svc)
unfolding next_event
next_event-Answers svc =
    search-Answers svc resend_opts 0 _ (omega arith) resend-Picks
      (search-Answers svc failed_opts 1 _ (omega arith) failed-Picks (
        search-Answers svc pending_delete_opts 2 _ (omega arith) pending_delete-Picks (λ least.
          rw (← or_else-none (find_event svc pending_opts)) (
            search-Answers svc pending_opts 3 none (omega arith) pending-Picks
              (λ all. inl (refl, all)) least))))
      (All-of_forall (λ d. 0 ≤ rank d) (λ d. omega arith) svc.events)

pub is_open-rank : (e : BillingEvent) → is_open e ≡ ltb (rank e) 4
unfolding is_open
is_open-rank e = ground arith

open-has_backlog :
    (svc : BillingService) {i : ℕ} {e : BillingEvent}
    → IsNext svc.events i e
    → has_backlog svc ≡ false
    → ⊥
unfolding has_backlog
open-has_backlog svc {i} {e} next idle =
    let shut =
      All-get_elem? (λ d. is_open d ≡ false) svc.events i (All-any-false is_open svc.events idle)
        next.at in
    ground (arith, is_open-rank e, next.urgent)

-- Nothing is taken exactly when `has_backlog` finds no open event.
pub next_event-has_backlog :
    (svc : BillingService) → (next_event svc ≡ none) ↔ (has_backlog svc ≡ false)
unfolding has_backlog
next_event-has_backlog svc = elim (next_event-Answers svc) [
  | inl (nothing, shut) ↦ (
    λ _. any-false-All is_open svc.events (
        All-mono (λ d. 4 ≤ rank d) (λ d. is_open d ≡ false) (λ d h. ground (arith, is_open-rank d))
          svc.events shut),
    λ _. nothing,
  )
  | inr (i, e, taken, next) ↦ (λ nothing. cc, λ idle. absurd (open-has_backlog svc next idle))
]

IsNext-unique :
    (es : List BillingEvent) (i j : ℕ) (e d : BillingEvent)
    → IsNext es i e
    → IsNext es j d
    → (i ≡ j) × (e ≡ d)
IsNext-unique es i j e d n m =
    let least = All-get_elem? (λ x. rank e ≤ rank x) es j n.first m.at in
    let least' = All-get_elem? (λ x. rank d ≤ rank x) es i m.first n.at in
    let after : ¬ (i < j) =
      λ lt. omega (arith, least', All-drop_get (λ x. rank e < rank x) es i j n.oldest lt m.at) in
    let before : ¬ (j < i) =
      λ lt. omega (arith, least, All-drop_get (λ x. rank d < rank x) es j i m.oldest lt n.at) in
    let same : i ≡ j = omega arith in
    (same, some-injective' (sym n.at ∙ ap (get_elem? es) same ∙ m.at))
  where
    some-injective' : some e ≡ some d → e ≡ d
    some-injective' h = cc

-- `next_event` is the one event that is to be delivered next.
pub IsNext-next_event :
    (svc : BillingService) (i : ℕ) (e : BillingEvent)
    → IsNext svc.events i e
    → next_event svc ≡ some (i, e)
IsNext-next_event svc i e next = elim (next_event-Answers svc) [
  | inl (nothing, shut) ↦
      absurd (omega (arith, All-get_elem? (λ d. 4 ≤ rank d) svc.events i shut next.at, next.urgent))
  | inr (j, d, taken, other) ↦
      let (same, same') = IsNext-unique svc.events i j e d next other in rw (same, same') taken
]

-- Another event of the same rank in its place is next as well.
pub IsNext-set :
    (es : List BillingEvent) (i : ℕ) (e e' : BillingEvent)
    → rank e' ≡ rank e
    → IsNext es i e
    → IsNext (set es i e') i e'
IsNext-set es i e e' same next = record {
  at = get_elem?-set_self es i e' next.at;
  urgent = omega (arith, next.urgent);
  first = All-set (λ d. rank e' ≤ rank d) es i e' (omega arith) (rw same next.first);
  oldest = rw (drop-set es i e', same) next.oldest;
}
