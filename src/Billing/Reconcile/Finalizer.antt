-- ===== src/Billing/Reconcile/Finalizer.antt =====
-- When the finalizer goes: shouldRemoveFinalizer of pkg/controller/billing/delete.go and its use in
-- pkg/controller/billing/billing_handler.go.
use appcat.Common.{
  ℕ, ◌+◌, ◌-◌, ◌*◌, ◌%◌, ◌^◌, ◌≤◌, ◌<◌, true, false, Option, none, some, leb, ltb, lt→ltb, ◌≡◌, ◌↔◌,
  ap, ◌∙◌, arith, if◌then◌else◌, Bool-cases, inl, inr,
}
use appcat.Common.Int.{pos, negsuc, ◌+ℤ◌, +ℤ_parts}
use appcat.Billing.Types.{BillingService}
use appcat.Billing.Events.{has_backlog}
use appcat.Billing.Client.{Client, Updates, push-accepted, and_then, pure}
use appcat.Billing.Lifecycle.{allowed_deletion_time, should_remove_finalizer}
use appcat.Billing.Reconcile.{release_finalizer}

-- 24 hours in nanoseconds.
abbrev pub day : ℕ
day = 86400000000000

-- For fewer than 106,752 days the product fits a Duration.
le→ltb_false : (a b : ℕ) → b ≤ a → ltb a b ≡ false
le→ltb_false a b h = ground arith

allowed_deletion_time-fits : (t n : ℕ) → n ≤ 106751 → allowed_deletion_time t n ≡ pos (t + n * day)
unfolding allowed_deletion_time
allowed_deletion_time-fits t n h =
    let small : (n * 86400000000000) % 2 ^ 64 ≡ n * 86400000000000 = omega arith in
    let in_range : ltb (n * 86400000000000) (2 ^ 63) ≡ true =
      lt→ltb (n * 86400000000000) (2 ^ 63) (omega arith) in
    rw (small, in_range)

-- From 106,752 to 213,503 days it is in the upper half of the 64-bit words: a negative Duration.
allowed_deletion_time-wraps :
    (t n : ℕ)
    → 106752 ≤ n
    → n ≤ 213503
    → allowed_deletion_time t n ≡ pos t +ℤ negsuc (2 ^ 64 - n * day - 1)
unfolding allowed_deletion_time
allowed_deletion_time-wraps t n many few =
    let small : (n * 86400000000000) % 2 ^ 64 ≡ n * 86400000000000 = omega arith in
    let negative : ltb (n * 86400000000000) (2 ^ 63) ≡ false =
      le→ltb_false (n * 86400000000000) (2 ^ 63) (omega arith) in
    rw (small, negative)

-- Up to 106,751 days: the finalizer may go exactly when the days are over, and until then the
-- object is to be looked at again just when they are.
pub should_remove_finalizer_lem :
    (n t now : ℕ)
    → 0 < n
    → n ≤ 106751
    → t ≤ now
    → should_remove_finalizer (pos n) t now
      ≡ (if leb (t + n * day) now then (true, none) else (false, some (t + n * day - now)))
unfolding should_remove_finalizer
should_remove_finalizer_lem n t now positive few later =
    rw (allowed_deletion_time-fits t n few) (ground arith)

-- From 106,752 to 213,503 days the product wraps around to a negative Duration, and the finalizer
-- may go at once.
pub should_remove_finalizer_wraps :
    (n t now : ℕ)
    → 106752 ≤ n
    → n ≤ 213503
    → t ≤ now
    → should_remove_finalizer (pos n) t now ≡ (true, none)
unfolding should_remove_finalizer
should_remove_finalizer_wraps n t now many few later =
    rw (allowed_deletion_time-wraps t n many few)
      (ground (arith, +ℤ_parts (pos t) (negsuc (2 ^ 64 - n * day - 1))))

module _ {W : Type 0} (c : Client W) (updates : Updates c) (max_events : ℕ) where
  -- If the API server accepts the update: of an object that carries the finalizer and is kept for 1
  -- to 106,751 days, the finalizer goes exactly when the queue has no backlog and the days since
  -- the deletion are over.
  pub release_finalizer_lem :
      (n t : ℕ) (svc : BillingService) (w : W)
      → svc.finalizer ≡ true
      → svc.keep_after_deletion ≡ pos n
      → 0 < n
      → n ≤ 106751
      → t ≤ (c.now w).0
      → ((release_finalizer c max_events t svc w).1.finalizer ≡ false)
        ↔ ((has_backlog svc ≡ false) × (t + n * day ≤ (c.now w).0))
  unfolding release_finalizer
  release_finalizer_lem n t svc w held days positive few later =
      elim (Bool-cases (leb (t + n * day) (c.now w).0)) [
        | inr early ↦
            let waits : should_remove_finalizer svc.keep_after_deletion t (c.now w).0
                ≡ (false, some (t + n * day - (c.now w).0)) =
              decision ∙ rw early in
            rw waits (λ gone. cc, λ over. absurd (ground arith))
        | inl over ↦
            let goes : should_remove_finalizer svc.keep_after_deletion t (c.now w).0
                ≡ (true, none) =
              decision ∙ rw over in
            elim (Bool-cases (has_backlog svc)) [
              | inl busy ↦ rw (goes, busy) (λ gone. cc, λ done. cc)
              | inr idle ↦
                  let released =
                    push-accepted c updates (record svc { finalizer = false }) (c.now w).1 in
                  (
                    λ gone. (idle, ground arith),
                    λ done.
                        rw (goes, idle, held)
                          (ap (λ r. r.1.finalizer)
                            (ap (λ r. and_then r (λ _. pure {W = W} {A = Option ℕ} none))
                              released)),
                  )
            ]
      ]
    where
      decision : should_remove_finalizer svc.keep_after_deletion t (c.now w).0 ≡ (
          if leb (t + n * day) (c.now w).0
          then (true, none)
          else (false, some (t + n * day - (c.now w).0)))
      decision =
          ap (λ k. should_remove_finalizer k t (c.now w).0) days
          ∙ should_remove_finalizer_lem n t (c.now w).0 positive few later
