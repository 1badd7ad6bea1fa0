-- ===== src/Billing/Resend/Modes.antt =====
-- What each mode of pkg/controller/billing/resend.go puts back in the queue.
use appcat.Common.{Bool, false, String, str_eq, if◌then◌else◌}
use appcat.Billing.Types.{BillingEvent}
use appcat.Billing.Resend.{in_all, in_not_sent, in_failed}

-- The events that a mode is about.
abbrev pub in_mode : String → BillingEvent → Bool
in_mode mode =
    if str_eq mode "all"
    then in_all
    else (if str_eq mode "not-sent"
        then in_not_sent
        else (if str_eq mode "failed" then in_failed else (λ e. false)))
