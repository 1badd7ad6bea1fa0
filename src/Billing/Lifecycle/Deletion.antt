-- ===== src/Billing/Lifecycle/Deletion.antt =====
-- What handleDeletion of pkg/controller/billing/delete.go enqueues.
use mathlib.Core.List.{append-nil}
use appcat.Common.{
  ℕ, ◌≤◌, Bool, true, false, not, ◌&&◌, ◌||◌, String, List, [], ◌∷◌, ◌++◌, any, keep_if, All, some,
  str_eq, eq_iff, eq_refl, ◌≡◌, refl, sym, ap, ◌∙◌, arith, Bool-cases, ◌⊎◌, inl, inr, subst,
}
use appcat.Billing.Types.{BillingEvent, BillingService, ItemSpec, deleted}
use appcat.Billing.Events.{
  has_event_by_instance_id, is_sent_size, last_observed_value_for_instance_id,
}
use appcat.Billing.Client.{Client, Storage, Walks, Result, ok, and_then, ◌>>=◌}
use appcat.Billing.Prune.{is_sent, event_count}
use appcat.Billing.Lifecycle.{
  instance_ids, item_of, event_for, enqueue_delete_if_needed, delete_items, delete_sent,
  delete_sent_events, add_finalizer, delete_all, handle_deletion,
}
use appcat.Billing.Lifecycle.Enqueue.{
  enqueued, any-enqueued, keep_unsent-enqueued, keep_instance-enqueued, enqueue_event_lem,
}
use appcat.Billing.Lifecycle.Enqueues.{
  unsent, has_delete, IsDelete, Distinct, Enqueues, Covered, Enqueues-refl, Enqueues-trans,
  Covered-later, Covered-before, seen_later,
}

str_eq-false_sym : (s t : String) → str_eq s t ≡ false → str_eq t s ≡ false
str_eq-false_sym s t h = ground (arith, eq_iff s t, eq_iff t s)

event_for_unsent :
    (item : ItemSpec) (value : String) (t : ℕ) → is_sent (event_for deleted item value t) ≡ false
unfolding is_sent
event_for_unsent item value t = refl

-- What one call or one loop leaves: it succeeds, and the object differs in its events alone.
module _ {W : Type 0} {c : Client W} {stored : W → BillingService} (storage : Storage c stored)
    (walks : Walks c) (max_events : ℕ) where
  record Ran (svc : BillingService) (seen : List String)
      (r : Result (List String) × BillingService × W) : Type 0 where
    pub seen' : List String
    pub es' : List BillingEvent
    pub w' : W
    pub result : r ≡ (ok seen', record svc { events = es' }, w')
    pub enqueues : Enqueues max_events svc.events seen es' seen'

  enqueue_one :
      (item : ItemSpec) (del_time : ℕ) (seen : List String) (svc : BillingService) (w : W)
      → (r : Ran svc seen (enqueue_delete_if_needed c max_events item del_time seen svc w))
        × Covered r.seen' svc.events item.instance_id
  unfolding enqueue_delete_if_needed has_event_by_instance_id
  enqueue_one item del_time seen svc w =
      elim (Bool-cases
        (any (str_eq item.instance_id) seen || has_delete item.instance_id svc.events)) [
          | inl done ↦ (
            record {
              seen' = seen;
              es' = svc.events;
              w' = w;
              result = rw done;
              enqueues = Enqueues-refl max_events svc.events seen;
            },
            ground arith,
          )
          | inr todo ↦
              let value = last_observed_value_for_instance_id svc item.instance_id item.value in
              let event = event_for deleted item value del_time in
              let (w', run) = enqueue_event_lem storage walks max_events event svc w in
              (
                record {
                  seen' = item.instance_id ∷ seen;
                  es' = enqueued max_events event svc.events;
                  w' = w';
                  result = rw (todo, run);
                  enqueues = record {
                    new = event ∷ [];
                    deletes = ((refl, refl), tt);
                    names = refl;
                    distinct = λ d. (ground arith, d);
                    kept =
                        keep_unsent-enqueued max_events event svc.events
                          (event_for_unsent item value del_time);
                    within = λ p h. any-enqueued p max_events event svc.events h;
                    untouched = λ id fresh fits.
                        keep_instance-enqueued max_events event id svc.events
                          (str_eq-false_sym id item.instance_id (ground arith)) fits;
                  };
                },
                inl (rw (eq_refl item.instance_id)),
              )
        ]

  -- One call, and then the rest of a loop.
  Ran-then :
      (svc : BillingService) (seen : List String) {m : Result (List String) × BillingService × W}
      (rest : List String → BillingService → W → Result (List String) × BillingService × W)
      (r : Ran svc seen m)
      → (q : Ran
          (record svc { events = r.es' })
          r.seen'
          (rest r.seen' (record svc { events = r.es' }) r.w'))
      → Ran svc seen (and_then m rest)
  Ran-then svc seen rest r q = record {
    seen' = q.seen';
    es' = q.es';
    w' = q.w';
    result = ap (λ x. and_then x rest) r.result ∙ q.result;
    enqueues =
        Enqueues-trans max_events svc.events r.es' q.es' seen r.seen' q.seen' r.enqueues q.enqueues;
  }

  -- What the rest of a loop covers, against the events before its first call.
  Covered-rest :
      (es es' : List BillingEvent) (seen seen' seen'' : List String) (es'' : List BillingEvent)
      (id : String)
      → Enqueues max_events es seen es' seen'
      → Enqueues max_events es' seen' es'' seen''
      → Covered seen'' es' id
      → Covered seen'' es id
  Covered-rest es es' seen seen' seen'' es'' id a b (inl h) = inl h
  Covered-rest es es' seen seen' seen'' es'' id a b (inr h) =
      Covered-later b es id (Covered-before a id h)

  run_items :
      (del_time : ℕ) (items : List ItemSpec) (seen : List String) (svc : BillingService) (w : W)
      → (r : Ran svc seen (delete_items c max_events del_time items seen svc w)) × ((id : String)
          → any (λ item. str_eq item.instance_id id) items ≡ true
          → Covered r.seen' svc.events id)
  unfolding delete_items Ran-then
  run_items del_time [] seen svc w = (
    record {
      seen' = seen;
      es' = svc.events;
      w' = w;
      result = refl;
      enqueues = Enqueues-refl max_events svc.events seen;
    },
    λ id h. cc,
  )
  run_items del_time (item ∷ items) seen svc w =
      let (r, covered) = enqueue_one item del_time seen svc w in
      let (q, covers) = run_items del_time items r.seen' (record svc { events = r.es' }) r.w' in
      (
        Ran-then svc seen (delete_items c max_events del_time items) r q,
        λ id h. elim (Bool-cases (str_eq item.instance_id id)) [
          | inl same ↦
              Covered-later q.enqueues svc.events id
                (subst (Covered r.seen' svc.events) ((eq_iff item.instance_id id).0 same) covered)
          | inr other ↦
              Covered-rest svc.events r.es' seen r.seen' q.seen' q.es' id r.enqueues q.enqueues
                (covers id (ground arith))
        ],
      )

  run_sent :
      (del_time : ℕ) (es : List BillingEvent) (seen : List String) (svc : BillingService) (w : W)
      → (r : Ran svc seen (delete_sent c max_events del_time es seen svc w)) × ((id : String)
          → any (λ e. is_sent_size e && str_eq e.instance_id id) es ≡ true
          → Covered r.seen' svc.events id)
  unfolding delete_sent Ran-then
  run_sent del_time [] seen svc w = (
    record {
      seen' = seen;
      es' = svc.events;
      w' = w;
      result = refl;
      enqueues = Enqueues-refl max_events svc.events seen;
    },
    λ id h. cc,
  )
  run_sent del_time (e ∷ es) seen svc w =
      elim (Bool-cases (any (str_eq e.instance_id) seen || not (is_sent_size e))) [
        | inl passed ↦
            let (q, covers) = run_sent del_time es seen svc w in
            (
              record {
                seen' = q.seen';
                es' = q.es';
                w' = q.w';
                result = rw passed q.result;
                enqueues = q.enqueues;
              },
              λ id h. elim (Bool-cases (is_sent_size e && str_eq e.instance_id id)) [
                | inl same ↦
                    let here = (eq_iff e.instance_id id).0 (ground arith) in
                    inl (
                      seen_later q.enqueues id
                        (subst (λ k. any (str_eq k) seen ≡ true) here (ground arith)))
                | inr other ↦ covers id (ground arith)
              ],
            )
        | inr taken ↦
            let (r, covered) = enqueue_one (item_of e) del_time seen svc w in
            let (q, covers) = run_sent del_time es r.seen' (record svc { events = r.es' }) r.w' in
            let whole = Ran-then svc seen (delete_sent c max_events del_time es) r q in
            (
              record {
                seen' = q.seen';
                es' = q.es';
                w' = q.w';
                result = rw taken whole.result;
                enqueues = whole.enqueues;
              },
              λ id h. elim (Bool-cases (is_sent_size e && str_eq e.instance_id id)) [
                | inl same ↦ Covered-later q.enqueues svc.events id (
                    subst (Covered r.seen' svc.events) ((eq_iff e.instance_id id).0 (ground arith))
                      covered)
                | inr other ↦
                    Covered-rest svc.events r.es' seen r.seen' q.seen' q.es' id r.enqueues
                      q.enqueues (covers id (ground arith))
              ],
            )
      ]

any-and-keep :
    (p q : BillingEvent → Bool) (es : List BillingEvent)
    → any (λ e. p e && q e) es ≡ any p (keep_if q es)
any-and-keep p q [] = refl
any-and-keep p q (e ∷ es) = ground (arith, any-and-keep p q es)

-- An instance for which a delete is owed: an item of the spec, or a sent create or scale event of
-- an instance that is within the limit of the events that are kept.
abbrev pub IsOwed : ℕ → BillingService → String → Type 0
IsOwed max_events svc id =
    (any (λ item. str_eq item.instance_id id) svc.items ≡ true)
    ⊎ ((any (λ e. is_sent_size e && str_eq e.instance_id id) svc.events ≡ true)
        × (event_count id svc.events ≤ max_events))

module _ {W : Type 0} {c : Client W} {stored : W → BillingService} (storage : Storage c stored)
    (walks : Walks c) (max_events : ℕ) where
  -- While no call fails, the deletion of an object succeeds and enqueues pending delete events
  -- `new`, at most one for an instance, in front of the unsent events, all of which are kept, and
  -- every instance for which a delete is owed has one of them, or had a delete event already.
  pub handle_deletion_lem :
      (svc : BillingService) (deleted_at : ℕ) (w : W) (id : String)
      → svc.deletion_timestamp ≡ some deleted_at
      → IsOwed max_events svc id
      → (new es' : List BillingEvent) × (w' : W) × (handle_deletion c max_events svc w
          ≡ (ok tt, record svc { finalizer = true; events = es' }, w'))
        × All IsDelete new
        × Distinct (instance_ids new)
        × (unsent es' ≡ new ++ unsent svc.events)
        × Covered (instance_ids new) svc.events id
  unfolding handle_deletion
  handle_deletion_lem svc deleted_at w id gone owed =
      let (r, from_items) = run_items storage walks max_events deleted_at svc.items [] svc w in
      let mid : BillingService = record svc { events = r.es' } in
      let (q, from_sent) = run_sent storage walks max_events deleted_at r.es' r.seen' mid r.w' in
      let run =
        Enqueues-trans max_events svc.events r.es' q.es' [] r.seen' q.seen' r.enqueues q.enqueues in
      let named : q.seen' ≡ instance_ids run.new = run.names ∙ append-nil (instance_ids run.new) in
      (
        run.new,
        q.es',
        q.w',
        ap (λ d. delete_all c max_events d svc w) gone
            ∙ ap
                (λ x. and_then x (λ seen. delete_sent_events c max_events deleted_at seen >>= λ _.
                  add_finalizer c max_events))
                r.result
            ∙ ap (λ x. and_then x (λ _. add_finalizer c max_events)) q.result,
        run.deletes,
        subst Distinct named (run.distinct tt),
        run.kept,
        subst (λ seen. Covered seen svc.events id) named (covers r q from_items from_sent owed),
      )
    where
      covers :
          (r : Ran storage walks max_events svc []
            (delete_items c max_events deleted_at svc.items [] svc w))
          (q : Ran storage walks max_events
            (record svc { events = r.es' })
            r.seen'
            (delete_sent c max_events deleted_at r.es' r.seen'
              (record svc { events = r.es' })
              r.w'))
          → ((k : String)
              → any (λ item. str_eq item.instance_id k) svc.items ≡ true
              → Covered r.seen' svc.events k)
          → ((k : String)
              → any (λ e. is_sent_size e && str_eq e.instance_id k) r.es' ≡ true
              → Covered q.seen' r.es' k)
          → IsOwed max_events svc id
          → Covered q.seen' svc.events id
      covers r q from_items from_sent (inl item) =
          Covered-later q.enqueues svc.events id (from_items id item)
      covers r q from_items from_sent (inr sent_size) =
          elim (Bool-cases (any (str_eq id) r.seen')) [
            | inl early ↦ inl (seen_later q.enqueues id early)
            | inr fresh ↦
                let same = r.enqueues.untouched id fresh sent_size.1 in
                let still =
                  any-and-keep is_sent_size (λ e. str_eq e.instance_id id) r.es'
                  ∙ ap (any is_sent_size) same
                  ∙ sym (any-and-keep is_sent_size (λ e. str_eq e.instance_id id) svc.events)
                  ∙ sent_size.0 in
                Covered-rest storage walks max_events svc.events r.es' [] r.seen' q.seen' q.es' id
                  r.enqueues q.enqueues (from_sent id still)
          ]
