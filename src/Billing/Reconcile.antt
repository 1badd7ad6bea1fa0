-- ===== src/Billing/Reconcile.antt =====
-- Reconcile and the constructor: pkg/controller/billing/billing_handler.go.
pub mod Finalizer
use appcat.Common.{
  ℕ, zero, suc, Bool, true, false, not, String, List, [], ◌∷◌, Option, none, some, str_eq,
  if◌then◌else◌, ◌&&◌, ◌||◌,
}
use appcat.Common.Int.{ℤ, pos, negsuc}
use appcat.Billing.Types.{BillingService, ItemSpec}
use appcat.Billing.Events.{has_backlog}
use appcat.Billing.Client.{
  ApiError, not_found, no_organization, no_sales_order, Client, M, Result, ok, err, push,
  push_status, ◌>>=◌, ◌>>◌, pure,
}
use appcat.Billing.Queue.{process_queue}
use appcat.Billing.Resend.{handle_resend_annotation}
use appcat.Billing.Conditions.{update_status}
use appcat.Billing.Lifecycle.{
  handle_item_creation, handle_item_scaling, handle_deletion, handle_removed_items,
  should_remove_finalizer,
}

-- New: a limit that is not positive becomes 100.
unfoldable pub new_max_events : ℤ → ℕ
new_max_events (negsuc n) = 100
new_max_events (pos zero) = 100
new_max_events (pos (suc n)) = suc n

-- successDrainDelay, in nanoseconds.
abbrev pub success_drain_delay : ℕ
success_drain_delay = 1000000000

module _ {W : Type 0} (c : Client W) (max_events : ℕ) where
  set_sales_order : String → M W (Unit {0})
  set_sales_order order svc w = push c (record svc { sales_order_id = order }) w

  -- getSalesOrderFromOrganization: an order that is missing or empty is an error.
  fetched_order : Result (Option String) → Result String
  fetched_order (err e) = err e
  fetched_order (ok none) = err no_sales_order
  fetched_order (ok (some order)) = if str_eq order "" then err no_sales_order else ok order

  fetch_sales_order : M W String
  unfolding fetched_order
  fetch_sales_order svc w =
      let (answer, w') = c.organization svc.organization w in (fetched_order answer, svc, w')

  fail : {A : Type 0} → ApiError → M W A
  fail e svc w = (err e, svc, w)

  pub ensure_sales_order : M W (Unit {0})
  unfolding set_sales_order fetch_sales_order fail
  ensure_sales_order svc w =
      let fetched = fetch_sales_order >>= set_sales_order in
      if not (str_eq svc.sales_order_id "")
      then (ok tt, svc, w)
      else (if str_eq svc.organization "" then fail no_organization svc w else fetched svc w)

  pub ensure_finalizer : M W (Unit {0})
  ensure_finalizer svc w = elim svc.deletion_timestamp [
    | some t ↦ (ok tt, svc, w)
    | none ↦ if svc.finalizer then (ok tt, svc, w) else push c (record svc { finalizer = true }) w
  ]

  put_status_if : Bool → M W (Unit {0})
  put_status_if changed svc w = if changed then push_status c svc w else (ok tt, svc, w)

  drop_resend_annotation : M W (Unit {0})
  drop_resend_annotation svc w = push c (record svc { resend_mode = none }) w

  apply_mode : String → M W (Unit {0})
  unfolding put_status_if drop_resend_annotation
  apply_mode mode svc w =
      let (svc', changed) = handle_resend_annotation svc mode in
      let put = put_status_if changed >> drop_resend_annotation in
      if str_eq mode "" then (ok tt, svc, w) else put svc' w

  pub apply_resend : M W (Unit {0})
  unfolding apply_mode
  apply_resend svc w = elim svc.resend_mode [
    | none ↦ (ok tt, svc, w)
    | some mode ↦ apply_mode mode svc w
  ]

  -- `_ = b.updateStatus(...)` before an error of processQueue is returned.
  report : Result Bool × BillingService × W → Result Bool × BillingService × W
  report (ok sent, svc, w) = (ok sent, svc, w)
  report (err e, svc, w) = let (_, svc', w') = update_status c svc w in (err e, svc', w')

  pub process_and_report : M W Bool
  unfolding report
  process_and_report svc w = report (process_queue c svc w)

  finish : Bool → Option ℕ → M W (Option ℕ)
  finish sent requeue_after svc w =
      (ok (if sent || has_backlog svc then some success_drain_delay else requeue_after), svc, w)

  drop_finalizer : M W (Unit {0})
  drop_finalizer svc w = push c (record svc { finalizer = false }) w

  -- The finalizer goes once the grace period is over and nothing is left in the queue. (An object's
  -- deletion timestamp, once set, does not change.)
  pub release_finalizer : ℕ → M W (Option ℕ)
  unfolding drop_finalizer
  release_finalizer deleted_at svc w =
      let (now, w₁) = c.now w in
      let (can_remove, requeue_after) =
        should_remove_finalizer svc.keep_after_deletion deleted_at now in
      let released = drop_finalizer >> pure requeue_after in
      if can_remove && not (has_backlog svc) && svc.finalizer
      then released svc w₁
      else (ok requeue_after, svc, w₁)

  pub reconcile_deleted : ℕ → M W (Option ℕ)
  unfolding finish
  reconcile_deleted deleted_at = do
    handle_deletion c max_events
    sent ← process_and_report
    requeue_after ← release_finalizer deleted_at
    update_status c
    finish sent requeue_after

  pub handle_items : Bool → List ItemSpec → M W (Unit {0})
  handle_items initial_creation [] = pure tt
  handle_items initial_creation (item ∷ items) =
      handle_item_creation c max_events item initial_creation
      >> (handle_item_scaling c max_events item >> handle_items initial_creation items)

  no_events : BillingService → Bool
  no_events svc = elim svc.events [ [] ↦ true | e ∷ es ↦ false ]

  handle_spec : M W (Unit {0})
  unfolding no_events
  handle_spec svc w = handle_items (no_events svc) svc.items svc w

  pub reconcile_live : M W (Option ℕ)
  unfolding handle_spec finish
  reconcile_live = do
    handle_spec
    handle_removed_items c max_events
    sent ← process_and_report
    update_status c
    finish sent none

  by_deletion : M W (Option ℕ)
  by_deletion svc w = elim svc.deletion_timestamp [
    | some t ↦ reconcile_deleted t svc w
    | none ↦ reconcile_live svc w
  ]

  pub reconcile_object : M W (Option ℕ)
  unfolding by_deletion
  reconcile_object = do ensure_sales_order; ensure_finalizer; apply_resend; by_deletion

  is_not_found : ApiError → Bool
  is_not_found not_found = true
  is_not_found _ = false

  reconcile_got : Result BillingService × W → Result (Option ℕ) × W
  unfolding is_not_found
  reconcile_got (err e, w) = (if is_not_found e then ok none else err e, w)
  reconcile_got (ok svc, w) = let (answer, _, w') = reconcile_object svc w in (answer, w')

  -- Reconcile: the delay after which the object is to be looked at again, if any.
  pub reconcile : W → Result (Option ℕ) × W
  unfolding reconcile_got
  reconcile w = reconcile_got (c.get w)
