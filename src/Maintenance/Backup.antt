-- ===== src/Maintenance/Backup.antt =====
-- The wait for running backups before a maintenance: pkg/maintenance/backup. Times are nanoseconds;
-- a time that is not set is `none`. k8up's HasFinished, the polling of k8s.io/apimachinery, the
-- Kubernetes API, the environment and the clock are not in this repository's sources: they are
-- parameters, and `W` is the state of all of these.
pub mod Waiting
pub mod Running
use appcat.Common.{
  ℕ, ltb, ◌+◌, ◌*◌, Bool, true, false, ◌&&◌, ◌||◌, not, String, str_eq, List, [], ◌∷◌, Option, none,
  some, any, if◌then◌else◌, ◌==◌, map,
}

pub data Result {ℓ} (A : Type ℓ) : Type ℓ where
  ok : A → Result A
  err : String → Result A

-- Fields that Backups of CNPG and k8up have, and the two marks of the end of a backup: the phase of a
-- CNPG Backup, and what HasFinished says of a k8up Backup.
pub record Backup : Type 0 where
  pub name : String
  pub deletion_timestamp : Option ℕ
  pub creation_timestamp : Option ℕ
  pub phase : String
  pub has_finished : Bool

pub record JobCondition : Type 0 where
  pub type : String
  pub status : String

-- batchv1.Job; `owner_references` are the uids of its owners.
pub record Job : Type 0 where
  pub name : String
  pub deletion_timestamp : Option ℕ
  pub creation_timestamp : Option ℕ
  pub owner_references : List String
  pub conditions : List JobCondition

-- How a poll ends: its condition held, it was interrupted, or another error.
pub data PollEnd : Type 0 where
  done interrupted : PollEnd
  broken : String → PollEnd

-- What the polled function leaves in the variables `running` and `lastErr`.
pub record Seen : Type 0 where
  pub running : List String
  pub last_err : Option String

-- The lists are those of one namespace. A cluster is given by its number of instances, a CronJob of
-- StackGres by its uid. `poll` has the settings of NewWaiter: at once, then every 30 seconds for six
-- hours.
pub record Client (W : Type 0) : Type 0 where
  pub instance_namespace : String
  pub now : W → ℕ × W
  pub delete_leftovers : String → W → Result (Unit {0}) × W
  pub list_clusters : String → W → Result (List ℕ) × W
  pub list_backups : String → W → Result (List Backup) × W
  pub list_cron_jobs : String → W → Result (List String) × W
  pub list_jobs : String → W → Result (List Job) × W
  pub poll : (Seen → W → Bool × Seen × W) → Seen → W → PollEnd × Seen × W

-- 24 hours.
abbrev pub max_backup_age : ℕ
max_backup_age = 24 * 3600 * 1000000000

abbrev pub is_set : Option ℕ → Bool
is_set none = false
is_set (some t) = true

abbrev pub complete_phases : List String
complete_phases = "completed" ∷ "failed" ∷ "walArchivingFailing" ∷ []

unfoldable pub is_cluster_suspended : ℕ → Bool
is_cluster_suspended instances = instances == 0

-- The body of the loops: an object that is skipped adds nothing.
abbrev pub appended : String → Bool → List String → List String
appended name skip names = if skip then names else name ∷ names

unfoldable pub is_terminal : String → Bool
is_terminal phase = any (str_eq phase) complete_phases

unfoldable pub owned_by_any : List String → List String → Bool
owned_by_any [] owners = false
owned_by_any (ref ∷ refs) owners =
    let rest = owned_by_any refs owners in if any (str_eq ref) owners then true else rest

unfoldable pub is_terminal_condition : JobCondition → Bool
is_terminal_condition condition =
    (str_eq condition.type "Complete" || str_eq condition.type "Failed")
    && str_eq condition.status "True"

unfoldable pub is_job_finished : List JobCondition → Bool
is_job_finished [] = false
is_job_finished (condition ∷ conditions) =
    let rest = is_job_finished conditions in if is_terminal_condition condition then true else rest

-- A list is taken on, an error is returned.
abbrev pub and_then : {W A B : Type 0} → Result A × W → (A → W → Result B × W) → Result B × W
and_then (ok a, w) f = f a w
and_then (err e, w) f = (err e, w)

abbrev pub listed : {W : Type 0} → List String × W → Result (List String) × W
listed (names, w) = (ok names, w)

-- What CNPG and StackGres do with the clusters first: the first one counts.
unfoldable pub unless_suspended :
    {W : Type 0} → List ℕ → (W → Result (List String) × W) → W → Result (List String) × W
unless_suspended [] rest w = (ok [], w)
unless_suspended (instances ∷ clusters) rest w =
    let answer = rest w in if is_cluster_suspended instances then (ok [], w) else answer

module _ {W : Type 0} (c : Client W) where
  -- time.Since is negative for a time to come, which is less than a day.
  unfoldable pub is_backup_stuck : Option ℕ → W → Bool × W
  is_backup_stuck none w = (false, w)
  is_backup_stuck (some created) w =
      let (now, w') = c.now w in (not (ltb now (created + max_backup_age)), w')

  -- `||`, whose right side is a call.
  unfoldable pub or_stuck : Bool → Option ℕ → W → Bool × W
  or_stuck skipped created w = elim skipped [ true ↦ (true, w) | false ↦ is_backup_stuck created w ]

  unfoldable pub cnpg_running : List Backup → W → List String × W
  cnpg_running [] w = ([], w)
  cnpg_running (b ∷ items) w =
      let (skip, w₁) = or_stuck (is_set b.deletion_timestamp) b.creation_timestamp w in
      let (names, w₂) = cnpg_running items w₁ in
      (appended b.name (skip || is_terminal b.phase) names, w₂)

  unfoldable pub k8up_running : List Backup → W → List String × W
  k8up_running [] w = ([], w)
  k8up_running (b ∷ items) w =
      let (skip, w₁) =
        or_stuck (is_set b.deletion_timestamp || b.has_finished) b.creation_timestamp w in
      let (names, w₂) = k8up_running items w₁ in (appended b.name skip names, w₂)

  unfoldable pub stackgres_running : List String → List Job → W → List String × W
  stackgres_running cron_jobs [] w = ([], w)
  stackgres_running cron_jobs (job ∷ items) w =
      let skipped =
        is_set job.deletion_timestamp
        || not (owned_by_any job.owner_references cron_jobs)
        || is_job_finished job.conditions in
      let (skip, w₁) = or_stuck skipped job.creation_timestamp w in
      let (names, w₂) = stackgres_running cron_jobs items w₁ in (appended job.name skip names, w₂)

  unfoldable pub cnpg_backups_in_progress : String → W → Result (List String) × W
  cnpg_backups_in_progress namespace w = and_then (c.list_clusters namespace w) (λ clusters w₁.
      unless_suspended clusters
        (λ w₂. and_then (c.list_backups namespace w₂) (λ items w₃. listed (cnpg_running items w₃)))
        w₁)

  unfoldable pub k8up_backups_in_progress : String → W → Result (List String) × W
  k8up_backups_in_progress namespace w =
      and_then (c.list_backups namespace w) (λ items w₁. listed (k8up_running items w₁))

  unfoldable pub jobs_of_cron_jobs : String → List String → W → Result (List String) × W
  jobs_of_cron_jobs namespace [] w = (ok [], w)
  jobs_of_cron_jobs namespace (uid ∷ uids) w =
      and_then (c.list_jobs namespace w)
        (λ jobs w₁. listed (stackgres_running (uid ∷ uids) jobs w₁))

  unfoldable pub stackgres_backups_in_progress : String → W → Result (List String) × W
  stackgres_backups_in_progress namespace w = and_then (c.list_clusters namespace w) (λ clusters w₁.
      unless_suspended clusters
        (λ w₂. and_then (c.list_cron_jobs namespace w₂) (jobs_of_cron_jobs namespace)) w₁)

-- The errors of WaitForRunningBackups.
pub data Failure : Type 0 where
  no_namespace : Failure
  check_failed : String → Failure
  still_running : List String → Failure

pub data Outcome : Type 0 where
  free : Outcome
  failed : Failure → Outcome

-- InProgressFunc.
abbrev pub InProgress : Type 0 → Type 0
InProgress W = String → W → Result (List String) × W

abbrev pub is_empty : List String → Bool
is_empty [] = true
is_empty (x ∷ xs) = false

-- A failed call of inProgress returns no names.
unfoldable pub seen : {W : Type 0} → Result (List String) × W → Bool × Seen × W
seen (ok names, w) = (is_empty names, record { running = names; last_err = none }, w)
seen (err e, w) = (false, record { running = []; last_err = some e }, w)

unfoldable pub check : {W : Type 0} → InProgress W → String → Seen → W → Bool × Seen × W
check in_progress namespace before w = seen (in_progress namespace w)

unfoldable pub outcome : {W : Type 0} → PollEnd × Seen × W → Outcome × W
outcome (done, last, w) = (free, w)
outcome (interrupted, last, w) = elim last.last_err [
  | some e ↦ (failed (check_failed e), w)
  | none ↦ (failed (still_running last.running), w)
]
outcome (broken e, last, w) = (failed (check_failed e), w)

-- The error of the removal of the leftovers is logged only.
unfoldable pub wait_for_running_backups : {W : Type 0} → Client W → InProgress W → W → Outcome × W
wait_for_running_backups c in_progress w =
    let (_, w₁) = c.delete_leftovers c.instance_namespace w in
    let polled =
      c.poll (check in_progress c.instance_namespace) (record { running = []; last_err = none })
        w₁ in
    if str_eq c.instance_namespace "" then (failed no_namespace, w) else outcome polled
