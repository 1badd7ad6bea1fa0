-- ===== src/TcpGateway/Cluster.antt =====
-- What the webhook calls: the Kubernetes API (controller-runtime's client), the clock and number
-- formats, none of which is in this repository's sources. `W` is the state of all of these.
use appcat.Common.{ℕ, ◌+◌, true, false, String, str_eq, List, Option, some, ◌≡◌, ◌⊎◌, ◌<◌, ◌*◌}
use appcat.Common.Int.{ℤ}
use appcat.TcpGateway.Objects.{Json}
use appcat.Common.Text.{cut}

-- The kinds of errors that the webhook tells apart; `reserving` and `exhausted` are its own.
pub data Error : Type 0 where
  already_exists not_found exhausted : Error
  reserving : ℤ → Error → Error
  other : String → Error

pub data Result {ℓ} (A : Type ℓ) : Type ℓ where
  ok : A → Result A
  err : Error → Result A

-- coordination.k8s.io's Lease, with the fields that the webhook sets or reads.
pub record Lease : Type 0 where
  pub name : String
  pub namespace : String
  pub uid : String
  pub labels : List (String × String)
  pub holder_identity : Option String
  pub acquire_time : Option ℕ

-- `get_lease` and `get_set` take a namespace and a name. `delete` has the lease's uid as its
-- precondition. `format_port` is "%d".
pub record Cluster (W : Type 0) : Type 0 where
  pub now : W → ℕ × W
  pub list_sets : W → Result (List Json) × W
  pub create : Lease → W → Result (Unit {0}) × W
  pub get_lease : String → String → W → Result Lease × W
  pub get_set : String → String → W → Result (Unit {0}) × W
  pub delete : Lease → W → Result (Unit {0}) × W
  pub format_port : ℤ → String

-- A lease in the cluster that nobody may take away. `Kept` says of a state that the lease is there,
-- held by a set that exists or acquired less than 30 seconds ago, as far as the calls below go.
pub record Protects {W : Type 0} (c : Cluster W) (held : Lease) (Kept : W → Type 0) : Type 0 where
  pub now_keeps : (w : W) → Kept w → Kept (c.now w).1
  pub get_lease_keeps : (ns name : String) (w : W) → Kept w → Kept (c.get_lease ns name w).1
  pub get_set_keeps : (ns name : String) (w : W) → Kept w → Kept (c.get_set ns name w).1
  pub create_keeps : (l : Lease) (w : W) → Kept w → Kept (c.create l w).1
  -- A name is taken once.
  pub create_taken :
      (l : Lease) (w : W)
      → Kept w
      → str_eq l.name held.name ≡ true
      → l.namespace ≡ held.namespace
      → (c.create l w).0 ≡ err already_exists
  pub get_held :
      (name : String) (w : W)
      → Kept w
      → str_eq name held.name ≡ true
      → (c.get_lease held.namespace name w).0 ≡ ok held
  -- The server answers with the object that was asked for.
  pub get_named :
      (ns name : String) (w : W) (l : Lease) → (c.get_lease ns name w).0 ≡ ok l → l.name ≡ name
  pub delete_keeps :
      (l : Lease) (w : W) → Kept w → str_eq l.name held.name ≡ false → Kept (c.delete l w).1
  -- The holder has a name, and is there or was created less than 30 seconds ago.
  pub holder : String
  pub holder_named : (held.holder_identity ≡ some holder) × (str_eq holder "" ≡ false)
  pub holder_alive :
      (w : W)
      → Kept w
      → ((c.get_set (cut holder "/").0 (cut holder "/").1 w).0 ≡ ok tt)
        ⊎ ((c.get_set (cut holder "/").0 (cut holder "/").1 w).0 ≡ err not_found)
          × ((t : ℕ) × (held.acquire_time ≡ some t)
              × ((w' : W) → Kept w' → (c.now w').0 < t + 30 * 1000000000))
