-- ===== src/Billing/Resend.antt =====
-- The resend annotation: pkg/controller/billing/resend.go.
pub mod Modes
use appcat.Common.{
  ℕ, ◌+◌, Bool, true, false, not, String, List, [], ◌∷◌, str_eq, if◌then◌else◌, ◌&&◌,
}
use appcat.Billing.Types.{BillingEvent, BillingService, sent, failed, superseded, resend, state_eq}

-- The body of the three loops: the event is put back in the queue, with one more retry.
abbrev pub again : BillingEvent → BillingEvent
again e = record e { state = resend; retry_count = e.retry_count + 1 }

-- A loop over the events that puts those back that pass a test; the flag is `changed`.
unfoldable pub resend_if : (BillingEvent → Bool) → List BillingEvent → List BillingEvent × Bool
resend_if p [] = ([], false)
resend_if p (e ∷ es) =
    let (es', changed) = resend_if p es in if p e then (again e ∷ es', true) else (e ∷ es', changed)

-- The tests of the modes `all`, `not-sent` and `failed`.
unfoldable pub in_all : BillingEvent → Bool
unfolding state_eq
in_all e = not (state_eq e.state superseded)

unfoldable pub in_not_sent : BillingEvent → Bool
unfolding state_eq
in_not_sent e = not (state_eq e.state superseded) && not (state_eq e.state sent)

unfoldable pub in_failed : BillingEvent → Bool
unfolding state_eq
in_failed e = state_eq e.state failed

-- The `switch` of handleResendAnnotation: another mode does nothing.
unfoldable pub resend_events : String → List BillingEvent → List BillingEvent × Bool
resend_events mode es =
    if str_eq mode "all"
    then resend_if in_all es
    else (if str_eq mode "not-sent"
        then resend_if in_not_sent es
        else (if str_eq mode "failed" then resend_if in_failed es else (es, false)))

unfoldable pub handle_resend_annotation : BillingService → String → BillingService × Bool
handle_resend_annotation svc mode =
    let (es, changed) = resend_events mode svc.events in (record svc { events = es }, changed)
