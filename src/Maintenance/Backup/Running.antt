-- ===== src/Maintenance/Backup/Running.antt =====
-- Which backups hold up a maintenance: cnpg.go, k8up.go and stackgres.go of pkg/maintenance/backup.
use appcat.Common.{
  ℕ, ltb, ◌+◌, Bool, true, false, ◌&&◌, ◌||◌, not, String, str_eq, List, [], ◌∷◌, Option, none,
  some, any, map, keep_if, ◌≡◌, refl, ap, ◌∙◌, Bool-cases, inl, inr,
}
use appcat.Maintenance.Backup.{
  Backup, Job, JobCondition, Client, max_backup_age, is_set, complete_phases, is_backup_stuck,
  or_stuck, appended, is_terminal, cnpg_running, k8up_running, owned_by_any, is_terminal_condition,
  is_job_finished, stackgres_running,
}

-- At time `now`, the object was created less than a day ago, or has no creation time.
abbrev pub is_recent : ℕ → Option ℕ → Bool
is_recent now none = true
is_recent now (some created) = ltb now (created + max_backup_age)

abbrev pub is_live : ℕ → Option ℕ → Option ℕ → Bool
is_live now deletion creation = not (is_set deletion) && is_recent now creation

abbrev pub holds_up_cnpg : ℕ → Backup → Bool
holds_up_cnpg now b =
    is_live now b.deletion_timestamp b.creation_timestamp
    && not (any (str_eq b.phase) complete_phases)

abbrev pub holds_up_k8up : ℕ → Backup → Bool
holds_up_k8up now b = is_live now b.deletion_timestamp b.creation_timestamp && not b.has_finished

-- A Job is a StackGres backup if one of its owners is a CronJob for backups, and has ended if one of
-- its conditions says so.
abbrev pub holds_up_stackgres : ℕ → List String → Job → Bool
holds_up_stackgres now cron_jobs job =
    is_live now job.deletion_timestamp job.creation_timestamp
    && any (λ owner. any (str_eq owner) cron_jobs) job.owner_references
    && not (any is_terminal_condition job.conditions)

skip_end : (a r e : Bool) → (a || not r || e) ≡ not ((not a && r) && not e)
skip_end true r e = refl
skip_end false true true = refl
skip_end false true false = refl
skip_end false false e = refl

skip_middle : (a r e : Bool) → ((a || e) || not r) ≡ not ((not a && r) && not e)
skip_middle true r e = refl
skip_middle false true true = refl
skip_middle false true false = refl
skip_middle false false true = refl
skip_middle false false false = refl

skip_job : (a r o e : Bool) → ((a || not o || e) || not r) ≡ not ((not a && r) && o && not e)
skip_job true r o e = refl
skip_job false true true true = refl
skip_job false true true false = refl
skip_job false true false e = refl
skip_job false false true true = refl
skip_job false false true false = refl
skip_job false false false e = refl

owned_by_any_eq :
    (refs owners : List String)
    → owned_by_any refs owners ≡ any (λ owner. any (str_eq owner) owners) refs
unfolding owned_by_any
owned_by_any_eq [] owners = refl
owned_by_any_eq (ref ∷ refs) owners = elim (Bool-cases (any (str_eq ref) owners)) [
  | inl owned ↦ rw owned refl
  | inr other ↦ rw other (owned_by_any_eq refs owners)
]

is_job_finished_eq :
    (conditions : List JobCondition)
    → is_job_finished conditions ≡ any is_terminal_condition conditions
unfolding is_job_finished
is_job_finished_eq [] = refl
is_job_finished_eq (x ∷ xs) = elim (Bool-cases (is_terminal_condition x)) [
  | inl over ↦ rw over refl
  | inr on ↦ rw on (is_job_finished_eq xs)
]

appended-keep_if {ℓ} :
    {A : Type ℓ} (name : A → String) (p : A → Bool) (x : A) (xs : List A) (skip : Bool)
    → skip ≡ not (p x)
    → appended (name x) skip (map name (keep_if p xs)) ≡ map name (keep_if p (x ∷ xs))
appended-keep_if name p x xs skip same = elim (Bool-cases (p x)) [
  | inl kept ↦ rw (same, kept) refl
  | inr dropped ↦ rw (same, dropped) refl
]

module _ {W : Type 0} (c : Client W) (t : ℕ) (still : (w : W) → c.now w ≡ (t, w)) where
  or_stuck-eq :
      (skipped : Bool) (created : Option ℕ) (w : W)
      → or_stuck c skipped created w ≡ (skipped || not (is_recent t created), w)
  unfolding or_stuck is_backup_stuck
  or_stuck-eq true created w = refl
  or_stuck-eq false none w = refl
  or_stuck-eq false (some created) w = rw (still w) refl

  cnpg_running-eq :
      (items : List Backup) (w : W)
      → cnpg_running c items w ≡ (map (λ b. b.name) (keep_if (holds_up_cnpg t) items), w)
  unfolding cnpg_running is_terminal
  cnpg_running-eq [] w = refl
  cnpg_running-eq (b ∷ items) w =
      let stuck = or_stuck-eq (is_set b.deletion_timestamp) b.creation_timestamp w in
      ap
        (λ s. (
          appended b.name (s.0 || is_terminal b.phase) (cnpg_running c items s.1).0,
          (cnpg_running c items s.1).1,
        ))
        stuck
      ∙ ap
          (λ r. (
            appended b.name
                (is_set b.deletion_timestamp
                  || not (is_recent t b.creation_timestamp)
                  || is_terminal b.phase)
                r.0,
            r.1,
          ))
          (cnpg_running-eq items w)
      ∙ ap (λ names. (names, w))
          (appended-keep_if (λ x. x.name) (holds_up_cnpg t) b items _
            (skip_end (is_set b.deletion_timestamp) (is_recent t b.creation_timestamp)
              (is_terminal b.phase)))

  k8up_running-eq :
      (items : List Backup) (w : W)
      → k8up_running c items w ≡ (map (λ b. b.name) (keep_if (holds_up_k8up t) items), w)
  unfolding k8up_running
  k8up_running-eq [] w = refl
  k8up_running-eq (b ∷ items) w =
      let skipped = is_set b.deletion_timestamp || b.has_finished in
      ap (λ s. (appended b.name s.0 (k8up_running c items s.1).0, (k8up_running c items s.1).1))
        (or_stuck-eq skipped b.creation_timestamp w)
      ∙ ap (λ r. (appended b.name (skipped || not (is_recent t b.creation_timestamp)) r.0, r.1))
          (k8up_running-eq items w)
      ∙ ap (λ names. (names, w))
          (appended-keep_if (λ x. x.name) (holds_up_k8up t) b items _
            (skip_middle (is_set b.deletion_timestamp) (is_recent t b.creation_timestamp)
              b.has_finished))

  stackgres_running-eq :
      (cron_jobs : List String) (items : List Job) (w : W)
      → stackgres_running c cron_jobs items w
        ≡ (map (λ job. job.name) (keep_if (holds_up_stackgres t cron_jobs) items), w)
  unfolding stackgres_running
  stackgres_running-eq cron_jobs [] w = refl
  stackgres_running-eq cron_jobs (job ∷ items) w =
      let skipped =
        is_set job.deletion_timestamp
        || not (owned_by_any job.owner_references cron_jobs)
        || is_job_finished job.conditions in
      ap
        (λ s. (
          appended job.name s.0 (stackgres_running c cron_jobs items s.1).0,
          (stackgres_running c cron_jobs items s.1).1,
        ))
        (or_stuck-eq skipped job.creation_timestamp w)
      ∙ ap (λ r. (appended job.name (skipped || not (is_recent t job.creation_timestamp)) r.0, r.1))
          (stackgres_running-eq cron_jobs items w)
      ∙ ap (λ names. (names, w))
          (appended-keep_if (λ x. x.name) (holds_up_stackgres t cron_jobs) job items _
            (rw (owned_by_any_eq job.owner_references cron_jobs, is_job_finished_eq job.conditions)
              (skip_job (is_set job.deletion_timestamp) (is_recent t job.creation_timestamp) _ _)))

  -- If the clock stands still while the lists are read, the loops over the lists
  -- keep exactly these backups, in the order of the lists: those that are not being deleted, were created less than a day ago or
  -- have no creation time, and have not ended. For StackGres they are also owned by a CronJob for
  -- backups.
  pub running_lem :
      (backups : List Backup) (cron_jobs : List String) (jobs : List Job) (w : W)
      → (cnpg_running c backups w ≡ (map (λ b. b.name) (keep_if (holds_up_cnpg t) backups), w))
        × (k8up_running c backups w ≡ (map (λ b. b.name) (keep_if (holds_up_k8up t) backups), w))
        × (stackgres_running c cron_jobs jobs w
            ≡ (map (λ job. job.name) (keep_if (holds_up_stackgres t cron_jobs) jobs), w))
  running_lem backups cron_jobs jobs w =
      (cnpg_running-eq backups w, k8up_running-eq backups w, stackgres_running-eq cron_jobs jobs w)
