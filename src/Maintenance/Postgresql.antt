-- ===== src/Maintenance/Postgresql.antt =====
-- The maintenance of a PostgreSQL instance: DoMaintenance of pkg/maintenance/postgresql.go and
-- GetLatestMinorVersion of pkg/auth/stackgres/client.go. Kubernetes, StackGres and the version library
-- are parameters; `W` is the state of the outside. The conditions of the objects have a reason and a
-- status (without them the code panics). Errors are kept without the texts that wrap them.
pub mod Streams
pub mod Runs
pub mod Schedule
pub mod Versions
use appcat.Common.{
  ℕ, ◌==◌, Bool, true, false, ◌&&◌, not, String, str_eq, List, [], ◌∷◌, any, Option, none, some,
  if◌then◌else◌,
}
use appcat.Common.Results.{Result, ok, err, Io, ◌>>=◌, ◌>>◌, pure, fail}

pub data Error : Type 0 where
  not_found timeout watch_closed watch_failed watch_event : Error
  other : String → Error

pub record Condition : Type 0 where
  pub reason : String
  pub status : String

-- stackgres' SGCluster: what the maintenance reads of it.
pub record Cluster : Type 0 where
  pub name : String
  pub instances : ℕ
  pub version : String
  pub conditions : Option (List Condition)

-- stackgres' SGDbOps. The method is that of the upgrade, and the version that of a minor upgrade.
pub record DbOps : Type 0 where
  pub name : String
  pub namespace : String
  pub cluster : String
  pub op : String
  pub max_retries : ℕ
  pub method : Option String
  pub postgres_version : Option String

pub record Claim : Type 0 where
  pub name : String
  pub namespace : String
  pub is_eol : Bool

-- An event of the watch: the changed operation, an error, or anything else.
pub data Event : Type 0 where
  modified : String → Option (List Condition) → Event
  failure unrelated : Event

-- What a wait reads, event by event, up to the firing of its timer or the closing of the channel.
pub data Stream : Type 0 where
  timed_out closed : Stream
  event : Event → Stream → Stream

pub record Outside (W : Type 0) : Type 0 where
  pub list_clusters : String → Io W Error (List Cluster)
  pub get_available_versions : Io W Error (List String)
  pub watch : String → Io W Error Stream
  pub delete : DbOps → Io W Error (Unit {0})
  pub create : DbOps → Io W Error (Unit {0})
  pub get_claim : String → String → Io W Error Claim
  pub update_claim : Claim → Io W Error (Unit {0})

-- hashicorp/go-version, and its order reversed for package sort.
pub record Library (V : Type 0) : Type 0 where
  pub new_version : String → Option V
  pub major : V → ℕ
  pub less_than : V → V → Bool
  pub original : V → String
  pub sort_reverse : List V → List V

pub record PostgreSql : Type 0 where
  pub instance_namespace : String
  pub claim_namespace : String
  pub claim_name : String
  pub repack : String
  pub vacuum : String

abbrev pub su : String
su = "securityUpgrade"

abbrev pub mvu : String
mvu = "minorVersionUpgrade"

unfoldable pub has_condition : String → List Condition → Bool
has_condition reason conditions =
    any (λ c. str_eq c.reason reason && str_eq c.status "True") conditions

unfoldable pub check_required_upgrade : Cluster → Bool
check_required_upgrade cl = elim cl.conditions [
  | none ↦ false
  | some conditions ↦ has_condition "ClusterRequiresUpgrade" conditions
]

unfoldable pub is_finished : String → String → Option (List Condition) → Bool
is_finished op o none = false
is_finished op o (some conditions) = str_eq o op && has_condition "OperationCompleted" conditions

-- The loop of waitForUpgrade.
unfoldable pub read_stream : String → Stream → Result Error (Unit {0})
read_stream op timed_out = err timeout
read_stream op closed = err watch_closed
read_stream op (event (modified o conditions) rest) =
    let later = read_stream op rest in if is_finished op o conditions then ok tt else later
read_stream op (event failure rest) = err watch_event
read_stream op (event unrelated rest) = read_stream op rest

unfoldable pub get_db_ops_object : PostgreSql → String → String → String → DbOps
get_db_ops_object p cluster name op = record {
  name = name;
  namespace = p.instance_namespace;
  cluster = cluster;
  op = op;
  max_retries = 1;
  method = none;
  postgres_version = none;
}

unfoldable pub repack_op : PostgreSql → String → DbOps
repack_op p cluster = get_db_ops_object p cluster "databasesrepack" "repack"

unfoldable pub vacuum_op : PostgreSql → String → DbOps
vacuum_op p cluster = get_db_ops_object p cluster "vacuum" "vacuum"

unfoldable pub security_op : PostgreSql → String → DbOps
security_op p cluster = record (get_db_ops_object p cluster "securitymaintenance" su) {
  method = some "InPlace";
}

unfoldable pub minor_op : PostgreSql → String → String → DbOps
minor_op p cluster version = record (get_db_ops_object p cluster "minorupgrade" mvu) {
  method = some "InPlace";
  postgres_version = some version;
}

unfoldable pub is_eol : String → Option (List String) → Bool
is_eol current none = false
is_eol current (some versions) = not (any (str_eq current) versions)

module _ {V : Type 0} (lib : Library V) where
  unfoldable pub add_valid : V → Option V → Option (List V) → Option (List V)
  add_valid current none rest = none
  add_valid current (some v) none = none
  add_valid current (some v) (some vs) =
      if lib.major v == lib.major current then some (v ∷ vs) else some vs

  -- The versions with the major version of the current one; `none` if one of the list is malformed.
  unfoldable pub valid_versions : V → List String → Option (List V)
  valid_versions current [] = some []
  valid_versions current (new_version ∷ versions) =
      add_valid current (lib.new_version new_version) (valid_versions current versions)

  unfoldable pub newer : V → List V → String
  newer current [] = lib.original current
  newer current (v ∷ vs) = if lib.less_than current v then lib.original v else lib.original current

  unfoldable pub newest_minor : V → Option (List V) → Option String
  newest_minor current none = none
  newest_minor current (some vs) = some (newer current (lib.sort_reverse vs))

  unfoldable pub newest_minor_of : List String → Option V → Option String
  newest_minor_of versions none = none
  newest_minor_of versions (some current) = newest_minor current (valid_versions current versions)

  -- `none` is an error, and a list that is `none` is nil.
  unfoldable pub get_latest_minor_version : String → Option (List String) → Option String
  get_latest_minor_version vers none = some vers
  get_latest_minor_version vers (some versions) = newest_minor_of versions (lib.new_version vers)

  -- The current and the latest version, as upgradeVersion goes on with them. With an error, both are
  -- the empty text.
  unfoldable pub versions_found : String → Option (List String) → String × String
  versions_found current versions = elim (get_latest_minor_version current versions) [
    | none ↦ ("", "")
    | some latest ↦ (current, latest)
  ]

module _ {W V : Type 0} (o : Outside W) (lib : Library V) (p : PostgreSql) where
  -- An operation that is not there does not have to be deleted.
  unfoldable pub after_delete : DbOps → Result Error (Unit {0}) × W → Result Error (Unit {0}) × W
  after_delete obj (ok a, w) = o.create obj w
  after_delete obj (err not_found, w) = o.create obj w
  after_delete obj (err e, w) = (err e, w)

  unfoldable pub apply_db_ops : DbOps → Io W Error (Unit {0})
  apply_db_ops obj w = after_delete obj (o.delete obj w)

  unfoldable pub wait_for_upgrade : String → Result Error Stream × W → Result Error (Unit {0}) × W
  wait_for_upgrade op (err e, w) = (err watch_failed, w)
  wait_for_upgrade op (ok stream, w) = (read_stream op stream, w)

  -- A timeout ends the maintenance without an error.
  unfoldable pub after_wait :
      Io W Error (Unit {0}) → Result Error (Unit {0}) × W → Result Error (Unit {0}) × W
  after_wait next (ok a, w) = next w
  after_wait next (err timeout, w) = (ok tt, w)
  after_wait next (err e, w) = (err e, w)

  unfoldable pub wait_then : String → Io W Error (Unit {0}) → Io W Error (Unit {0})
  wait_then op next w = after_wait next (wait_for_upgrade op (o.watch p.instance_namespace w))

  unfoldable pub set_eol_status : Io W Error (Unit {0})
  set_eol_status = do
    claim ← o.get_claim p.claim_namespace p.claim_name
    o.update_claim (record claim { is_eol = true })

  unfoldable pub mark_if : Bool → Io W Error (Unit {0})
  mark_if eol = if eol then set_eol_status else pure tt

  unfoldable pub choose_upgrade :
      String → Option (List String) → String × String → Io W Error String
  choose_upgrade cluster versions (current, latest) =
      if str_eq current latest
      then (do mark_if (is_eol current versions); apply_db_ops (security_op p cluster); pure su)
      else (do apply_db_ops (minor_op p cluster latest); pure mvu)

  -- The answer of fetchVersionList; on an error the list is nil.
  unfoldable pub with_versions :
      String → String → Result Error (List String) × W → Result Error String × W
  with_versions current cluster (ok versions, w) =
      choose_upgrade cluster (some versions) (versions_found lib current (some versions)) w
  with_versions current cluster (err e, w) =
      choose_upgrade cluster none (versions_found lib current none) w

  unfoldable pub upgrade_version : String → String → Io W Error String
  upgrade_version current cluster w = with_versions current cluster (o.get_available_versions w)

  unfoldable pub apply_if : Bool → DbOps → Io W Error (Unit {0}) → Io W Error (Unit {0})
  apply_if b obj next = if b then (apply_db_ops obj >> next) else next

  unfoldable pub clean_up : String → Io W Error (Unit {0})
  clean_up cluster = apply_if (str_eq p.vacuum "true") (vacuum_op p cluster) (
      apply_if (str_eq p.repack "true") (repack_op p cluster) (
        apply_if (not (str_eq p.vacuum "true") && not (str_eq p.repack "true"))
          (repack_op p cluster) (pure tt)))

  unfoldable pub upgrade_and_clean_up : Cluster → Io W Error (Unit {0})
  upgrade_and_clean_up cl = do
    op ← upgrade_version cl.version cl.name
    wait_then op (clean_up cl.name)

  unfoldable pub maintain_cluster : Cluster → Io W Error (Unit {0})
  maintain_cluster cl =
      if check_required_upgrade cl
      then (apply_db_ops (security_op p cl.name) >> wait_then su (upgrade_and_clean_up cl))
      else upgrade_and_clean_up cl

  unfoldable pub maintain_first : List Cluster → Io W Error (Unit {0})
  maintain_first [] = pure tt
  maintain_first (cl ∷ clusters) = if cl.instances == 0 then pure tt else maintain_cluster cl

  unfoldable pub do_maintenance : Io W Error (Unit {0})
  do_maintenance = do clusters ← o.list_clusters p.instance_namespace; maintain_first clusters
