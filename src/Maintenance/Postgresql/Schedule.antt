-- ===== src/Maintenance/Postgresql/Schedule.antt =====
-- The maintenance of a PostgreSQL instance runs a schedule of operations, each after the one before:
-- DoMaintenance of pkg/maintenance/postgresql.go.
use appcat.Common.{
  ◌==◌, Bool, true, false, ◌&&◌, not, String, str_eq, List, [], ◌∷◌, ◌++◌, Option, none, some, ◌≡◌,
  refl, sym, subst, ap, ◌∙◌, eq_refl, eq_iff, any, ◌⊎◌, inl, inr, Bool-cases, Option-cases,
  if◌then◌else◌,
}
use mathlib.Core.Bool.{true≢false}
use mathlib.Core.List.{append-nil}
use appcat.Common.Results.{Result, ok, err, Io, ◌>>◌, and_then, pure}
use appcat.Maintenance.Postgresql.{
  Error, Cluster, DbOps, Outside, Library, PostgreSql, su, mvu, check_required_upgrade,
  has_condition, repack_op, vacuum_op, security_op, minor_op, get_db_ops_object,
  get_latest_minor_version, versions_found, is_eol, apply_db_ops, wait_then, set_eol_status,
  mark_if, choose_upgrade, with_versions, upgrade_version, apply_if, clean_up, upgrade_and_clean_up,
  maintain_cluster, maintain_first, do_maintenance,
}
use appcat.Maintenance.Postgresql.Runs.{
  Step, make, wait, Entry, made, Ran, finished, Journaled, Does, Runs, Runs-quiet, Runs-make,
  Does-quiet, apply_db_ops-Does, Runs-apply, Runs-wait,
}

abbrev make_if : Bool → DbOps → List Step → List Step
make_if b obj steps = if b then make obj ∷ steps else steps

abbrev pub clean_up_steps : PostgreSql → String → List Step
clean_up_steps p cluster = make_if (str_eq p.vacuum "true") (vacuum_op p cluster) (
    make_if (str_eq p.repack "true") (repack_op p cluster) (
      make_if (not (str_eq p.vacuum "true") && not (str_eq p.repack "true")) (repack_op p cluster)
        []))

abbrev upgrade_steps : PostgreSql → String → DbOps → List Step
upgrade_steps p cluster up = make up ∷ (wait up.op ∷ clean_up_steps p cluster)

-- A condition of the cluster says that it has to be upgraded.
abbrev pub requires_upgrade : Cluster → Bool
requires_upgrade cl = elim cl.conditions [
  | none ↦ false
  | some conditions ↦
      any (λ c. str_eq c.reason "ClusterRequiresUpgrade" && str_eq c.status "True") conditions
]

required_lem : (cl : Cluster) → check_required_upgrade cl ≡ requires_upgrade cl
unfolding check_required_upgrade has_condition
required_lem cl = refl

-- The schedule of a cluster, with the upgrade that is chosen.
abbrev pub schedule : PostgreSql → Cluster → DbOps → List Step
schedule p cl up =
    if cl.instances == 0
    then []
    else (if requires_upgrade cl
        then make (security_op p cl.name) ∷ (wait su ∷ upgrade_steps p cl.name up)
        else upgrade_steps p cl.name up)

module _ {V : Type 0} (lib : Library V) (p : PostgreSql) where
  -- The upgrade that the answer of the version list asks for: a minor upgrade to the latest version,
  -- if that is known and is another one, and else a security upgrade.
  abbrev pub Chosen : Cluster → Result Error (List String) → DbOps → Type 0
  Chosen cl (err e) up = up ≡ security_op p cl.name
  Chosen cl (ok versions) up =
      ((get_latest_minor_version lib cl.version (some versions) ≡ none)
        × (up ≡ security_op p cl.name))
      ⊎ ((latest : String) × (get_latest_minor_version lib cl.version (some versions) ≡ some latest)
          × (((cl.version ≡ latest) × (up ≡ security_op p cl.name))
              ⊎ ((cl.version ≡ latest → ⊥) × (up ≡ minor_op p cl.name latest))))

module _ {W V : Type 0} (o : Outside W) (lib : Library V) (p : PostgreSql)
    (journal : W → List Entry) (j : Journaled o journal) where
  Runs-apply_if :
      (b : Bool) (obj : DbOps) (steps : List Step) (next : Io W Error (Unit {0}))
      → ((w : W) → Runs journal steps w (next w))
      → (w : W) → Runs journal (make_if b obj steps) w (apply_if o lib p b obj next w)
  unfolding apply_if
  Runs-apply_if true obj steps next rest w = Runs-apply o lib p journal j obj steps next w (rest _)
  Runs-apply_if false obj steps next rest w = rest w

  clean_up-Runs :
      (cluster : String) (w : W)
      → Runs journal (clean_up_steps p cluster) w (clean_up o lib p cluster w)
  unfolding clean_up
  clean_up-Runs cluster = Runs-apply_if _ (vacuum_op p cluster) _ _ (
      Runs-apply_if _ (repack_op p cluster) _ _ (
        Runs-apply_if _ (repack_op p cluster) [] (pure tt)
          (λ w. ([], sym (append-nil (journal w)), finished))))

  kept_after :
      {A B : Type 0} (w : W) (out : Result Error A × W) (next : A → Io W Error B)
      → journal (out.1) ≡ journal w
      → ((a : A) (w₁ : W) → journal ((next a w₁).1) ≡ journal w₁)
      → journal ((and_then out next).1) ≡ journal w
  kept_after w (ok a, w₁) next same rest = rest a w₁ ∙ same
  kept_after w (err e, w₁) next same rest = same

  Does-after :
      {A B : Type 0} (b : B) (gain : List Entry) (w : W) (out : Result Error A × W)
      (next : A → Io W Error B)
      → journal (out.1) ≡ journal w
      → ((a : A) (w₁ : W) → Does journal b gain w₁ (next a w₁))
      → Does journal b gain w (and_then out next)
  Does-after b gain w (ok a, w₁) next same rest =
      Does-quiet o lib p journal j b gain w w₁ _ same (rest a w₁)
  Does-after b gain w (err e, w₁) next same rest = inr (e, w₁, refl, same)

  Does-answer :
      {A B : Type 0} (a : A) (b : B) (gain : List Entry) (w : W) (out : Result Error A × W)
      → Does journal a gain w out
      → Does journal b gain w (and_then out (λ _. pure b))
  Does-answer a b gain w out (inl (w₁, answer, gained)) =
      inl (w₁, ap (λ z. and_then z (λ _. pure b)) answer, gained)
  Does-answer a b gain w out (inr (e, w₁, answer, same)) =
      inr (e, w₁, ap (λ z. and_then z (λ _. pure b)) answer, same)

  mark_if_kept : (eol : Bool) (w : W) → journal ((mark_if o lib p eol w).1) ≡ journal w
  unfolding mark_if set_eol_status
  mark_if_kept true w =
      kept_after w (o.get_claim p.claim_namespace p.claim_name w) _
        (j.get_claim p.claim_namespace p.claim_name w)
        (λ claim. j.update_claim (record claim { is_eol = true }))
  mark_if_kept false w = refl

  security-Does :
      (cluster : String) (eol : Bool) (w : W)
      → Does journal su
          (made (security_op p cluster) ∷ [])
          w
          ((mark_if o lib p eol >> (apply_db_ops o lib p (security_op p cluster) >> pure su)) w)
  security-Does cluster eol w =
      Does-after su _ w (mark_if o lib p eol w)
        (λ _. apply_db_ops o lib p (security_op p cluster) >> pure su) (mark_if_kept eol w)
        (λ _ w₁.
          Does-answer tt su _ w₁ _ (apply_db_ops-Does o lib p journal j (security_op p cluster) w₁))

  abbrev Upgrades : Cluster → Result Error (List String) → W → Result Error String × W → Type 0
  Upgrades cl answer w out =
      (up : DbOps) × Chosen lib p cl answer up × Does journal up.op (made up ∷ []) w out

  choose_same :
      (cl : Cluster) (versions : Option (List String)) (current latest : String) (w : W)
      → str_eq current latest ≡ true
      → Does journal su
          (made (security_op p cl.name) ∷ [])
          w
          (choose_upgrade o lib p cl.name versions (current, latest) w)
  unfolding choose_upgrade
  choose_same cl versions current latest w same =
      rw same (security-Does cl.name (is_eol current versions) w)

  versions_found-cases :
      (current : String) (versions : List String)
      → ((get_latest_minor_version lib current (some versions) ≡ none)
          × (versions_found lib current (some versions) ≡ ("", "")))
        ⊎ ((latest : String) × (get_latest_minor_version lib current (some versions) ≡ some latest)
            × (versions_found lib current (some versions) ≡ (current, latest)))
  unfolding versions_found
  versions_found-cases current versions =
      elim (Option-cases (get_latest_minor_version lib current (some versions))) [
        | inl failed ↦ inl (failed, rw (failed, versions_found) refl)
        | inr (latest, found) ↦ inr (latest, found, rw (found, versions_found) refl)
      ]

  choose_found :
      (cl : Cluster) (versions : List String) (latest : String) (w : W)
      → get_latest_minor_version lib cl.version (some versions) ≡ some latest
      → Upgrades cl
          (ok versions)
          w
          (choose_upgrade o lib p cl.name (some versions) (cl.version, latest) w)
  unfolding choose_upgrade minor_op security_op get_db_ops_object
  choose_found cl versions latest w found = elim (Bool-cases (str_eq cl.version latest)) [
    | inl same ↦ (
      security_op p cl.name,
      inr (latest, found, inl ((eq_iff cl.version latest).0 same, refl)),
      choose_same cl (some versions) cl.version latest w same,
    )
    | inr other_one ↦ (
      minor_op p cl.name latest,
      inr (
        latest,
        found,
        inr (λ same. true≢false (sym ((eq_iff cl.version latest).1 same) ∙ other_one), refl),
      ),
      rw other_one (
          Does-answer tt mvu _ w _
            (apply_db_ops-Does o lib p journal j (minor_op p cl.name latest) w)),
    )
  ]

  choose_upgrade-Upgrades :
      (cl : Cluster) (versions : List String) (w : W)
      → Upgrades cl (ok versions) w (
          choose_upgrade o lib p cl.name
            (some versions)
            (versions_found lib cl.version (some versions))
            w)
  unfolding security_op get_db_ops_object
  choose_upgrade-Upgrades cl versions w =
      let upgrades : String × String → Type 0 =
        λ z. Upgrades cl (ok versions) w (choose_upgrade o lib p cl.name (some versions) z w) in
      elim (versions_found-cases cl.version versions) [
        | inl (failed, both) ↦
            subst upgrades (sym both) (
              security_op p cl.name,
              inl (failed, refl),
              choose_same cl (some versions) "" "" w refl,
            )
        | inr (latest, found, both) ↦
            subst upgrades (sym both) (choose_found cl versions latest w found)
      ]

  with_versions-Upgrades :
      (cl : Cluster) (w : W) (out : Result Error (List String) × W)
      → journal (out.1) ≡ journal w
      → Upgrades cl (out.0) w (with_versions o lib p cl.version cl.name out)
  unfolding with_versions versions_found get_latest_minor_version security_op get_db_ops_object
  with_versions-Upgrades cl w (ok versions, w₁) same =
      let (up, chosen, does) = choose_upgrade-Upgrades cl versions w₁ in
      (up, chosen, Does-quiet o lib p journal j up.op _ w w₁ _ same does)
  with_versions-Upgrades cl w (err e, w₁) same = (
    security_op p cl.name,
    refl,
    Does-quiet o lib p journal j su _ w w₁ _ same
        (choose_same cl none cl.version cl.version w₁ (eq_refl cl.version)),
  )

  -- A run of one of the schedules that `steps` gives for the upgrades.
  abbrev RunsOne : Cluster → W → (DbOps → List Step) → W → Result Error (Unit {0}) × W → Type 0
  RunsOne cl asked steps w out =
      (up : DbOps) × Chosen lib p cl ((o.get_available_versions asked).0) up
      × Runs journal (steps up) w out

  upgrade_and_clean_up-RunsOne :
      (cl : Cluster) (w : W)
      → RunsOne cl w (upgrade_steps p cl.name) w (upgrade_and_clean_up o lib p cl w)
  unfolding upgrade_and_clean_up upgrade_version
  upgrade_and_clean_up-RunsOne cl w =
      let (up, chosen, does) =
        with_versions-Upgrades cl w (o.get_available_versions w) (j.get_available_versions w) in
      (
        up,
        chosen,
        Runs-make journal up.op up (wait up.op ∷ clean_up_steps p cl.name) w _
            (λ op. wait_then o lib p op (clean_up o lib p cl.name)) does
            (Runs-wait o lib p journal j up.op (clean_up_steps p cl.name) (clean_up o lib p cl.name)
              _ (clean_up-Runs cl.name _)),
      )

  -- There is always an upgrade to choose.
  choice :
      (cl : Cluster) (answer : Result Error (List String))
      → (up : DbOps) × Chosen lib p cl answer up
  choice cl (err e) = (security_op p cl.name, refl)
  choice cl (ok versions) =
      elim (Option-cases (get_latest_minor_version lib cl.version (some versions))) [
        | inl failed ↦ (security_op p cl.name, inl (failed, refl))
        | inr (latest, found) ↦ elim (Bool-cases (str_eq cl.version latest)) [
          | inl same ↦ (
            security_op p cl.name,
            inr (latest, found, inl ((eq_iff cl.version latest).0 same, refl)),
          )
          | inr other_one ↦ (
            minor_op p cl.name latest,
            inr (
              latest,
              found,
              inr (λ same. true≢false (sym ((eq_iff cl.version latest).1 same) ∙ other_one), refl),
            ),
          )
        ]
      ]

  -- The state in which the list of versions is asked for, if the maintenance comes so far.
  abbrev pub asked_at : Cluster → W → W
  asked_at cl w =
      if requires_upgrade cl
      then (o.watch p.instance_namespace ((apply_db_ops o lib p (security_op p cl.name) w).1)).1
      else w

  maintain_cluster-RunsOne :
      (cl : Cluster) (w : W)
      → RunsOne cl
          (asked_at cl w)
          (λ up.
            if requires_upgrade cl
            then make (security_op p cl.name) ∷ (wait su ∷ upgrade_steps p cl.name up)
            else upgrade_steps p cl.name up)
          w
          (maintain_cluster o lib p cl w)
  unfolding maintain_cluster
  maintain_cluster-RunsOne cl w = elim (Bool-cases (requires_upgrade cl)) [
    | inl required ↦
        let w₁ = (apply_db_ops o lib p (security_op p cl.name) w).1 in
        let (up, chosen, runs) =
          upgrade_and_clean_up-RunsOne cl ((o.watch p.instance_namespace w₁).1) in
        rw (required_lem cl ∙ required, required)
          (
            up,
            chosen,
            Runs-apply o lib p journal j (security_op p cl.name)
                (wait su ∷ upgrade_steps p cl.name up) _ w
                (Runs-wait o lib p journal j su (upgrade_steps p cl.name up)
                  (upgrade_and_clean_up o lib p cl) w₁ runs),
          )
    | inr current ↦ rw (required_lem cl ∙ current, current) (upgrade_and_clean_up-RunsOne cl w)
  ]

  -- The clusters of the namespace are known, and the first of them is looked at. Whatever fails on the
  -- way, what the maintenance has had made and has watched is a run of the schedule of the cluster, for
  -- the upgrade that the list of versions asks for, and the maintenance answers as that run: the
  -- operations that are due first, each after a watch that saw the completion of the upgrade before it.
  -- A cluster without instances has no schedule. With vacuum alone enabled no repack is due.
  pub do_maintenance_refines :
      (cl : Cluster) (clusters : List Cluster) (w w₁ : W)
      → o.list_clusters p.instance_namespace w ≡ (ok (cl ∷ clusters), w₁)
      → (up : DbOps) × Chosen lib p cl ((o.get_available_versions (asked_at cl w₁)).0) up
        × (es : List Entry) × (journal ((do_maintenance o lib p w).1) ≡ journal w ++ es)
        × Ran (schedule p cl up) ((do_maintenance o lib p w).0) es
  unfolding do_maintenance maintain_first
  do_maintenance_refines cl clusters w w₁ listed =
      let same : journal w₁ ≡ journal w =
        sym (ap (λ z. journal (z.1)) listed) ∙ j.list_clusters p.instance_namespace w in
      elim (Bool-cases (cl.instances == 0)) [
        | inl suspended ↦
            let (up, chosen) = choice cl ((o.get_available_versions (asked_at cl w₁)).0) in
            rw (listed, suspended) (up, chosen, [], same ∙ sym (append-nil (journal w)), finished)
        | inr active ↦
            let (up, chosen, runs) = maintain_cluster-RunsOne cl w₁ in
            let (es, gained, ran) = Runs-quiet journal _ w w₁ _ same runs in
            rw (listed, active) (up, chosen, es, gained, ran)
      ]
