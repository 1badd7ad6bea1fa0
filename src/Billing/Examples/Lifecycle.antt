-- ===== src/Billing/Examples/Lifecycle.antt =====
-- Runs of the lifecycle of pkg/controller/billing: deletions, items, sizes and the finalizer.
use appcat.Common.{
  ◌+◌, ◌*◌, ◌≤◌, true, false, String, List, [], ◌∷◌, ◌++◌, none, some, All, ◌≡◌, ◌≢◌, ◌↔◌, refl,
  arith, inr, eq_iff,
}
use appcat.Common.Int.{pos}
use appcat.Billing.Types.{BillingEvent, BillingService, sent, created, deleted, scaled}
use appcat.Billing.Events.{has_backlog, has_event_by_instance_id, is_sent_size}
use appcat.Billing.Prune.{event_count}
use appcat.Billing.Client.{ok}
use appcat.Billing.Lifecycle.{
  instance_ids, event_for, handle_item_creation, handle_deletion, should_remove_finalizer,
}
use appcat.Billing.Lifecycle.Enqueues.{unsent, IsDelete, Distinct, Covered}
use appcat.Billing.Lifecycle.Deletion.{handle_deletion_lem}
use appcat.Billing.Lifecycle.Items.{handle_item_creation_new}
use appcat.Billing.Reconcile.{release_finalizer}
use appcat.Billing.Reconcile.Finalizer.{day, should_remove_finalizer_lem, release_finalizer_lem}
-- The object on the server, a clock that ticks at each reading, and the event types that were sent.
use appcat.Billing.Examples.{
  Server, memory, memory-Storage, memory-Walks, memory-Updates, event, item, service, server,
}

abbrev doomed : BillingService
doomed = record (service (item "a" "1" ∷ []) (event created sent "b" "2" 3 ∷ [])) {
  deletion_timestamp = some 50;
  keep_after_deletion = pos 1;
}

handle_deletion_lem_example :
    (new es' : List BillingEvent) × (w' : Server) × (handle_deletion
        (memory none)
        100
        doomed
        (server doomed)
      ≡ (ok tt, record doomed { finalizer = true; events = es' }, w'))
    × All IsDelete new
    × Distinct (instance_ids new)
    × (unsent es' ≡ new ++ unsent doomed.events)
    × Covered (instance_ids new) doomed.events "b"
unfolding is_sent_size event_count
handle_deletion_lem_example =
    handle_deletion_lem (memory-Storage none) (memory-Walks none) 100 doomed 50 (server doomed) "b"
      refl (inr (refl, omega arith))

one_is_not_two : ◌≢◌ {A = String} "1" "2"
one_is_not_two = ground (arith, eq_iff "1" "2")

one_is_not_six : ◌≢◌ {A = String} "1" "6"
one_is_not_six = ground (arith, eq_iff "1" "6")

-- Created with 1, scaled to 2, back to 1; now the spec says 2 again.
abbrev back_and_forth : BillingService
back_and_forth =
    service (item "a" "2" ∷ []) (
      event scaled sent "a" "1" 3 ∷ event scaled sent "a" "2" 2 ∷ event created sent "a" "1" 1 ∷ [])

-- Created, deleted, and in the spec once more.
abbrev readded : BillingService
readded =
    service (item "a" "1" ∷ []) (event deleted sent "a" "1" 2 ∷ event created sent "a" "1" 1 ∷ [])

handle_item_creation_new_example :
    (es' : List BillingEvent) × (w' : Server) × (handle_item_creation
        (memory none)
        100
        (item "c" "4")
        false
        readded
        (server readded)
      ≡ (ok tt, record readded { events = es' }, w'))
    × (unsent es' ≡ event_for created (item "c" "4") "4" 100 ∷ unsent readded.events)
    × (handle_item_creation
          (memory none)
          100
          (item "c" "4")
          false
          (record readded { events = es' })
          w'
        ≡ (ok tt, record readded { events = es' }, w'))
unfolding has_event_by_instance_id
handle_item_creation_new_example =
    handle_item_creation_new (memory-Storage none) (memory-Walks none) 100 (item "c" "4") false
      false readded (server readded) 100 refl refl

should_remove_finalizer_lem_example :
    should_remove_finalizer (pos 2) 50 (50 + day) ≡ (false, some day)
should_remove_finalizer_lem_example =
    should_remove_finalizer_lem 2 50 (50 + day) (omega arith) (omega arith) (omega arith)

release_finalizer_lem_example :
    ((release_finalizer (memory none) 100 50 doomed (server doomed)).1.finalizer ≡ false)
    ↔ ((has_backlog doomed ≡ false) × (50 + 1 * day ≤ 100))
release_finalizer_lem_example =
    release_finalizer_lem (memory none) (memory-Updates none) 100 1 50 doomed (server doomed) refl
      refl (omega arith) (omega arith) (omega arith)
