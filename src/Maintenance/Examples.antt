-- ===== src/Maintenance/Examples.antt =====
-- Runs of pkg/maintenance/backup: a poll with three turns, against a namespace whose backup ends
-- between two of them.
pub mod Versions
mod Releases
mod Charts
mod Databases
use appcat.Common.{
  ℕ, zero, suc, ◌*◌, Bool, true, false, String, List, [], ◌∷◌, none, some, map, keep_if, ◌≡◌, refl,
  ◌⊎◌, inl, inr, Bool-cases, if◌then◌else◌,
}
use appcat.Maintenance.Backup.{
  Result, ok, err, Backup, Job, PollEnd, done, interrupted, Seen, Client, free, cnpg_running,
  k8up_running, stackgres_running, k8up_backups_in_progress, wait_for_running_backups, check, seen,
  outcome, or_stuck, is_backup_stuck,
}
use appcat.Maintenance.Backup.Waiting.{Polls, Reports, wait_for_running_backups-Reports}
use appcat.Maintenance.Backup.Running.{
  holds_up_cnpg, holds_up_k8up, holds_up_stackgres, running_lem,
}

abbrev hour : ℕ
hour = 3600 * 1000000000

-- The world is what the next calls list, one after the other.
abbrev World : Type 0
World = List (List Backup)

abbrev Condition : Type 0
Condition = Seen → World → Bool × Seen × World

abbrev poll_times : ℕ → Condition → Seen → World → PollEnd × Seen × World
poll_times zero f s w =
    let (over, s', w') = f s w in if over then (done, s', w') else (interrupted, s', w')
poll_times (suc n) f s w =
    let (over, s', w') = f s w in
    let again = poll_times n f s' w' in if over then (done, s', w') else again

abbrev next_list : World → Result (List Backup) × World
next_list [] = (ok [], [])
next_list (backups ∷ rest) = (ok backups, rest)

abbrev namespace_with_backups : Client World
namespace_with_backups = record {
  instance_namespace = "vshn-redis";
  now = λ w. (100 * hour, w);
  delete_leftovers = λ ns w. (err "forbidden", w);
  list_clusters = λ ns w. (ok (1 ∷ []), w);
  list_backups = λ ns w. next_list w;
  list_cron_jobs = λ ns w. (ok [], w);
  list_jobs = λ ns w. (ok [], w);
  poll = poll_times 2;
}

poll_times-ends :
    (n : ℕ) (f : Condition) (s : Seen) (w : World)
    → (last : Seen) × ((before : World) × (((poll_times n f s w
              ≡ (done, (f last before).1, (f last before).2))
            × ((f last before).0 ≡ true))
          ⊎ ((poll_times n f s w ≡ (interrupted, (f last before).1, (f last before).2))
              × ((f last before).0 ≡ false))))
poll_times-ends zero f s w = elim (Bool-cases (f s w).0) [
  | inl over ↦ (s, (w, inl (rw over refl, over)))
  | inr on ↦ (s, (w, inr (rw on refl, on)))
]
poll_times-ends (suc n) f s w = elim (Bool-cases (f s w).0) [
  | inl over ↦ (s, (w, inl (rw over refl, over)))
  | inr on ↦
      let (last, (before, ended)) = poll_times-ends n f (f s w).1 (f s w).2 in
      (last, (before, rw on ended))
]

namespace_with_backups-Polls : Polls namespace_with_backups
namespace_with_backups-Polls = record { ends = poll_times-ends 2 }

abbrev backup : String → ℕ → String → Bool → Backup
backup name created phase finished = record {
  name = name;
  deletion_timestamp = none;
  creation_timestamp = some created;
  phase = phase;
  has_finished = finished;
}

abbrev ends_soon : World
ends_soon =
    (backup "b" (99 * hour) "running" false ∷ [])
    ∷ (backup "b" (99 * hour) "completed" true ∷ backup "old" (76 * hour) "running" false ∷ [])
    ∷ []

waits :
    (wait_for_running_backups namespace_with_backups
      (k8up_backups_in_progress namespace_with_backups)
      ends_soon).0
    ≡ free
unfolding wait_for_running_backups check seen outcome k8up_backups_in_progress k8up_running or_stuck
    is_backup_stuck
waits = refl

wait_for_running_backups-Reports_example :
    (w' : World) × Reports
      (wait_for_running_backups namespace_with_backups
        (k8up_backups_in_progress namespace_with_backups)
        ends_soon).0
      (k8up_backups_in_progress namespace_with_backups "vshn-redis" w').0
wait_for_running_backups-Reports_example =
    wait_for_running_backups-Reports namespace_with_backups-Polls
      (k8up_backups_in_progress namespace_with_backups) ends_soon refl

abbrev listed_backups : List Backup
listed_backups =
    backup "b" (99 * hour) "running" false ∷ backup "old" (76 * hour) "running" false ∷ []

abbrev listed_jobs : List Job
listed_jobs =
    record {
      name = "j";
      deletion_timestamp = none;
      creation_timestamp = none;
      owner_references = "u" ∷ [];
      conditions = [];
    }
    ∷ []

running_lem_example :
    (cnpg_running namespace_with_backups listed_backups []
      ≡ (map (λ b. b.name) (keep_if (holds_up_cnpg (100 * hour)) listed_backups), []))
    × (k8up_running namespace_with_backups listed_backups []
        ≡ (map (λ b. b.name) (keep_if (holds_up_k8up (100 * hour)) listed_backups), []))
    × (stackgres_running namespace_with_backups ("u" ∷ []) listed_jobs [] ≡ (
      map (λ job. job.name) (keep_if (holds_up_stackgres (100 * hour) ("u" ∷ [])) listed_jobs),
      [],
    ))
running_lem_example =
    running_lem namespace_with_backups (100 * hour) (λ w. refl) listed_backups ("u" ∷ [])
      listed_jobs []
