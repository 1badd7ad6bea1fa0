-- ===== src/TcpGateway/Allocator.antt =====
-- The allocation of ports by leases: AllocatePort and tryReclaimStaleLease of
-- pkg/controller/webhooks/tcpgateway/allocator.go. Times are nanoseconds.
pub mod Range
pub mod Exclusive
use appcat.Common.{
  ℕ, zero, suc, ◌+◌, ◌*◌, ◌-◌, ◌^◌, ltb, Bool, true, false, ◌&&◌, String, str_eq, List, [], ◌∷◌,
  Option, none, some, any, ◌==◌, if◌then◌else◌,
}
use appcat.Common.Int.{ℤ, pos, negsuc, ◌+ℤ◌, leb_ℤ, pos_part, neg_part}
use appcat.TcpGateway.Objects.{int32}
use appcat.TcpGateway.Cluster.{
  Error, already_exists, not_found, exhausted, reserving, other, Result, ok, err, Lease, Cluster,
}
use appcat.Common.Text.{cut}
use Prim.Native.String.{◌++◌ as str_append}

pub record PortAllocator : Type 0 where
  pub port_range_start : ℤ
  pub port_range_end : ℤ

-- usedPorts[port].
unfoldable pub is_used : ℤ → List ℤ → Bool
is_used port used = any (λ p. (pos_part p == pos_part port) && (neg_part p == neg_part port)) used

module _ {W : Type 0} (c : Cluster W) where
  unfoldable pub lease_name : ℤ → String
  lease_name port = str_append "tcp-port-" (c.format_port port)

  unfoldable pub lease_for : ℤ → String → String → ℕ → Lease
  lease_for port namespace holder now = record {
    name = lease_name port;
    namespace = namespace;
    uid = "";
    labels = ("app.kubernetes.io/managed-by", "tcpgateway-port-allocator") ∷ [];
    holder_identity = some holder;
    acquire_time = some now;
  }

  -- Whether an error is nil, with the state that the call left.
  abbrev pub succeeded {ℓ} : {A : Type ℓ} → Result A × W → Bool × W
  succeeded (ok a, w) = (true, w)
  succeeded (err e, w) = (false, w)

  unfoldable pub reclaim_if_old : Lease → Option ℕ → W → Bool × W
  reclaim_if_old existing none w = succeeded (c.delete existing w)
  reclaim_if_old existing (some acquired) w =
      let (now, w') = c.now w in
      if ltb now (acquired + 30 * 1000000000) then (false, w') else succeeded (c.delete existing w')

  -- What is done with the answer to the search for the holder.
  unfoldable pub reclaim_held : Lease → Result (Unit {0}) × W → Bool × W
  reclaim_held existing (ok _, w) = (false, w)
  reclaim_held existing (err not_found, w) = reclaim_if_old existing existing.acquire_time w
  reclaim_held existing (err _, w) = (false, w)

  unfoldable pub reclaim_by_holder : Lease → Option String → W → Bool × W
  reclaim_by_holder existing none w = succeeded (c.delete existing w)
  reclaim_by_holder existing (some identity) w =
      let (holder_ns, holder_name, _) = cut identity "/" in
      if str_eq identity ""
      then succeeded (c.delete existing w)
      else reclaim_held existing (c.get_set holder_ns holder_name w)

  unfoldable pub reclaim_got : Result Lease × W → Bool × W
  reclaim_got (err e, w) = (false, w)
  reclaim_got (ok existing, w) = reclaim_by_holder existing existing.holder_identity w

  unfoldable pub try_reclaim_stale_lease : String → String → W → Bool × W
  try_reclaim_stale_lease name namespace w = reclaim_got (c.get_lease namespace name w)

  -- What one turn of the loop does: it returns, or goes on to the next port.
  pub data Turn : Type 0 where
    returned : Result ℤ → W → Turn
    next_port : W → Turn

  -- The second call of Create, after a reclaimed lease.
  unfoldable pub after_retry : ℤ → Result (Unit {0}) × W → Turn
  after_retry port (ok _, w) = returned (ok port) w
  after_retry port (err e, w) = next_port w

  unfoldable pub after_reclaim : ℤ → Lease → Bool × W → Turn
  after_reclaim port lease (true, w) = after_retry port (c.create lease w)
  after_reclaim port lease (false, w) = next_port w

  unfoldable pub after_create : ℤ → Lease → Result (Unit {0}) × W → Turn
  after_create port lease (ok _, w) = returned (ok port) w
  after_create port lease (err already_exists, w) =
      after_reclaim port lease (try_reclaim_stale_lease lease.name lease.namespace w)
  after_create port lease (err e, w) = returned (err (reserving port e)) w

  unfoldable pub try_port : List ℤ → String → String → ℕ → ℤ → W → Turn
  try_port used namespace holder now port w =
      let lease = lease_for port namespace holder now in
      if is_used port used then next_port w else after_create port lease (c.create lease w)

  -- The loop from `port`, for at most as many turns as the fuel; `none` is no answer yet. port++ is
  -- an operation on int32.
  unfoldable pub allocate_from :
      PortAllocator → List ℤ → String → String → ℕ → ℕ → ℤ → W → Option (Result ℤ × W)
  allocate_from a used namespace holder now zero port w = none
  allocate_from a used namespace holder now (suc fuel) port w =
      if leb_ℤ port a.port_range_end
      then elim (try_port used namespace holder now port w) [
        | returned r w' ↦ some (r, w')
        | next_port w' ↦ allocate_from a used namespace holder now fuel (int32 (port +ℤ pos 1)) w'
      ]
      else some (err exhausted, w)

  unfoldable pub allocate_port :
      PortAllocator → List ℤ → String → String → ℕ → W → Option (Result ℤ × W)
  allocate_port a used namespace holder fuel w =
      let (now, w') = c.now w in
      allocate_from a used namespace holder now fuel a.port_range_start w'
