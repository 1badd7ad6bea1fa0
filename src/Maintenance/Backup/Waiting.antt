-- ===== src/Maintenance/Backup/Waiting.antt =====
-- What the end of WaitForRunningBackups of pkg/maintenance/backup/waiter.go says.
use appcat.Common.{
  Bool, true, false, String, str_eq, List, [], ◌∷◌, none, ◌≡◌, refl, ◌≢◌, ◌⊎◌, inl, inr,
}
use appcat.Maintenance.Backup.{
  Result, ok, err, done, interrupted, Seen, Client, InProgress, seen, check, no_namespace,
  check_failed, still_running, Outcome, free, failed, outcome, wait_for_running_backups,
}

-- wait.PollUntilContextTimeout that calls its condition at once: it is done when a call answers true,
-- interrupted after a call that answered false, and returns no other error, as the condition has none.
pub record Polls {W : Type 0} (c : Client W) : Type 0 where
  pub ends :
      (f : Seen → W → Bool × Seen × W) (s : Seen) (w : W)
      → (last : Seen) × ((before : W) × (((c.poll f s w
                ≡ (done, (f last before).1, (f last before).2))
              × ((f last before).0 ≡ true))
            ⊎ ((c.poll f s w ≡ (interrupted, (f last before).1, (f last before).2))
                × ((f last before).0 ≡ false))))

-- What an outcome says of an answer of inProgress.
abbrev pub Reports : Outcome → Result (List String) → Type 0
Reports free answer = answer ≡ ok []
Reports (failed no_namespace) answer = ⊥
Reports (failed (check_failed e)) answer = answer ≡ err e
Reports (failed (still_running names)) answer = (answer ≡ ok names) × (names ≢ [])

Reports-done : {W : Type 0} (r : Result (List String) × W) → (seen r).0 ≡ true → Reports free r.0
unfolding seen
Reports-done (ok [], w) h = refl
Reports-done (ok (n ∷ names), w) h = cc
Reports-done (err e, w) h = cc

Reports-interrupted :
    {W : Type 0} (r : Result (List String) × W)
    → (seen r).0 ≡ false
    → Reports (outcome (interrupted, (seen r).1, (seen r).2)).0 r.0
unfolding seen outcome
Reports-interrupted (ok [], w) h = cc
Reports-interrupted (ok (n ∷ names), w) h = (refl, λ e. cc)
Reports-interrupted (err e, w) h = refl

-- If the namespace is set and the polling keeps to its documentation, then the outcome reports what a
-- call of inProgress answered: the wait is over only if a call found no running backup, it fails for
-- running backups only if a call found these, and else with the error of a call.
pub wait_for_running_backups-Reports :
    {W : Type 0} {c : Client W} (polls : Polls c) (in_progress : InProgress W) (w : W)
    → str_eq c.instance_namespace "" ≡ false
    → (w' : W) × Reports
        (wait_for_running_backups c in_progress w).0
        (in_progress c.instance_namespace w').0
unfolding wait_for_running_backups check outcome
wait_for_running_backups-Reports {c = c} polls in_progress w named =
    let w₁ = (c.delete_leftovers c.instance_namespace w).1 in
    let (last, (before, ended)) =
      polls.ends (check in_progress c.instance_namespace) (record { running = []; last_err = none })
        w₁ in
    elim ended [
      | inl (over, found) ↦
          (before, rw (named, over) (Reports-done (in_progress c.instance_namespace before) found))
      | inr (over, found) ↦ (
        before,
        rw (named, over) (Reports-interrupted (in_progress c.instance_namespace before) found),
      )
    ]
