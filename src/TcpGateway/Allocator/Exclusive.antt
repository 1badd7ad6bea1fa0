-- ===== src/TcpGateway/Allocator/Exclusive.antt =====
-- Two allocations never give one port: AllocatePort and tryReclaimStaleLease of
-- pkg/controller/webhooks/tcpgateway/allocator.go against a lease that is held.
use appcat.Common.{
  ℕ, zero, suc, ◌+◌, ◌<◌, ◌*◌, ltb, lt→ltb, Bool, true, false, String, str_eq, List, Option, none,
  some, ◌≡◌, refl, ◌⊎◌, inl, inr, Bool-cases, subst, sym,
}
use appcat.Common.Int.{ℤ, pos, ◌+ℤ◌, leb_ℤ}
use appcat.TcpGateway.Objects.{int32}
use appcat.TcpGateway.Cluster.{
  already_exists, not_found, exhausted, reserving, other, Result, ok, err, Lease, Cluster, Protects,
}
use appcat.TcpGateway.Allocator.{
  PortAllocator, is_used, lease_name, lease_for, succeeded, reclaim_if_old, reclaim_held,
  reclaim_by_holder, reclaim_got, Turn, returned, next_port, after_retry, after_reclaim,
  after_create, try_reclaim_stale_lease, try_port, allocate_from, allocate_port,
}

module _ {W : Type 0} {c : Cluster W} {held : Lease} {Kept : W → Type 0}
    (protects : Protects c held Kept) where
  succeeded-keeps {ℓ} : {A : Type ℓ} (r : Result A × W) → Kept r.1 → Kept (succeeded c r).1
  succeeded-keeps (ok a, w) kept = kept
  succeeded-keeps (err e, w) kept = kept

  abbrev pub IsApart : String → Type 0
  IsApart name = str_eq name held.name ≡ false

  reclaim_if_old-other :
      (l : Lease) (acquired : Option ℕ) (w : W)
      → Kept w
      → IsApart l.name
      → Kept (reclaim_if_old c l acquired w).1
  unfolding reclaim_if_old
  reclaim_if_old-other l none w kept apart =
      succeeded-keeps (c.delete l w) (protects.delete_keeps l w kept apart)
  reclaim_if_old-other l (some t) w kept apart =
      elim (Bool-cases (ltb (c.now w).0 (t + 30 * 1000000000))) [
        | inl young ↦ rw young (protects.now_keeps w kept)
        | inr old ↦ rw old (
            succeeded-keeps (c.delete l (c.now w).1)
              (protects.delete_keeps l (c.now w).1 (protects.now_keeps w kept) apart))
      ]

  reclaim_held-other :
      (l : Lease) (r : Result (Unit {0}) × W)
      → Kept r.1
      → IsApart l.name
      → Kept (reclaim_held c l r).1
  unfolding reclaim_held
  reclaim_held-other l (ok a, w) kept apart = kept
  reclaim_held-other l (err not_found, w) kept apart =
      reclaim_if_old-other l l.acquire_time w kept apart
  reclaim_held-other l (err already_exists, w) kept apart = kept
  reclaim_held-other l (err exhausted, w) kept apart = kept
  reclaim_held-other l (err (reserving p e), w) kept apart = kept
  reclaim_held-other l (err (other m), w) kept apart = kept

  reclaim_by_holder-other :
      (l : Lease) (identity : Option String) (w : W)
      → Kept w
      → IsApart l.name
      → Kept (reclaim_by_holder c l identity w).1
  unfolding reclaim_by_holder
  reclaim_by_holder-other l none w kept apart =
      succeeded-keeps (c.delete l w) (protects.delete_keeps l w kept apart)
  reclaim_by_holder-other l (some h) w kept apart = elim (Bool-cases (str_eq h "")) [
    | inl empty ↦ rw empty (succeeded-keeps (c.delete l w) (protects.delete_keeps l w kept apart))
    | inr named ↦ rw named (reclaim_held-other l _ (protects.get_set_keeps _ _ w kept) apart)
  ]

  reclaim_got-other :
      (name : String) (r : Result Lease × W)
      → Kept r.1
      → ((l : Lease) → r.0 ≡ ok l → l.name ≡ name)
      → IsApart name
      → Kept (reclaim_got c r).1
  unfolding reclaim_got
  reclaim_got-other name (err e, w) kept named apart = kept
  reclaim_got-other name (ok l, w) kept named apart =
      reclaim_by_holder-other l l.holder_identity w kept (subst IsApart (sym (named l refl)) apart)

  -- The lease that is held is not reclaimed.
  abbrev Refuses : Bool × W → Type 0
  Refuses r = (r.0 ≡ false) × Kept r.1

  abbrev IsAlive : Result (Unit {0}) → Type 0
  IsAlive r =
      (r ≡ ok tt)
      ⊎ ((r ≡ err not_found)
          × ((t : ℕ) × (held.acquire_time ≡ some t)
              × ((w' : W) → Kept w' → (c.now w').0 < t + 30 * 1000000000)))

  reclaim_held-Refuses :
      (r : Result (Unit {0}) × W) → Kept r.1 → IsAlive r.0 → Refuses (reclaim_held c held r)
  unfolding reclaim_held reclaim_if_old
  reclaim_held-Refuses (ok a, w) kept alive = (refl, kept)
  reclaim_held-Refuses (err not_found, w) kept (inl found) = cc
  reclaim_held-Refuses (err not_found, w) kept (inr (gone, (t, acquired, young))) =
      rw (acquired, lt→ltb (c.now w).0 (t + 30 * 1000000000) (young w kept))
        (refl, protects.now_keeps w kept)
  reclaim_held-Refuses (err already_exists, w) kept alive = (refl, kept)
  reclaim_held-Refuses (err exhausted, w) kept alive = (refl, kept)
  reclaim_held-Refuses (err (reserving p e), w) kept alive = (refl, kept)
  reclaim_held-Refuses (err (other m), w) kept alive = (refl, kept)

  reclaim_by_holder-Refuses :
      (w : W) → Kept w → Refuses (reclaim_by_holder c held held.holder_identity w)
  unfolding reclaim_by_holder
  reclaim_by_holder-Refuses w kept =
      subst (λ identity. Refuses (reclaim_by_holder c held identity w))
        (sym protects.holder_named.0)
        (rw protects.holder_named.1 (
          reclaim_held-Refuses _ (protects.get_set_keeps _ _ w kept)
            (protects.holder_alive w kept)))

  reclaim_got-Refuses :
      (r : Result Lease × W) → Kept r.1 → r.0 ≡ ok held → Refuses (reclaim_got c r)
  unfolding reclaim_got
  reclaim_got-Refuses (err e, w) kept same = cc
  reclaim_got-Refuses (ok l, w) kept same =
      let here : held ≡ l = cc in
      subst (λ x. Refuses (reclaim_by_holder c x x.holder_identity w)) here
        (reclaim_by_holder-Refuses w kept)

  -- The turn keeps the lease, and does not return its port.
  abbrev pub TurnKeeps : Turn c → Type 0
  TurnKeeps (returned (ok p) w) = IsApart (lease_name c p) × Kept w
  TurnKeeps (returned (err e) w) = Kept w
  TurnKeeps (next_port w) = Kept w

  -- What the loop's answer keeps.
  abbrev pub AnswerKeeps : Option (Result ℤ × W) → Type 0
  AnswerKeeps none = Unit
  AnswerKeeps (some (r, w)) = TurnKeeps (returned r w)

  after_retry-keeps :
      (port : ℤ) (r : Result (Unit {0}) × W)
      → Kept r.1
      → IsApart (lease_name c port)
      → TurnKeeps (after_retry c port r)
  unfolding after_retry
  after_retry-keeps port (ok a, w) kept apart = (apart, kept)
  after_retry-keeps port (err e, w) kept apart = kept

  after_reclaim-other :
      (port : ℤ) (l : Lease) (r : Bool × W)
      → Kept r.1
      → IsApart (lease_name c port)
      → TurnKeeps (after_reclaim c port l r)
  unfolding after_reclaim
  after_reclaim-other port l (true, w) kept apart =
      after_retry-keeps port (c.create l w) (protects.create_keeps l w kept) apart
  after_reclaim-other port l (false, w) kept apart = kept

  after_reclaim-Refuses :
      (port : ℤ) (l : Lease) (r : Bool × W) → Refuses r → TurnKeeps (after_reclaim c port l r)
  unfolding after_reclaim
  after_reclaim-Refuses port l (true, w) h = let clash : true ≡ false = h.0 in cc
  after_reclaim-Refuses port l (false, w) h = h.1

  module _ (holder : String) (now : ℕ) where
    abbrev wanted : ℤ → Lease
    wanted port = lease_for c port held.namespace holder now

    after_taken-keeps :
        (port : ℤ) (w : W)
        → Kept w
        → TurnKeeps (
            after_reclaim c port
              (wanted port)
              (try_reclaim_stale_lease c (lease_name c port) held.namespace w))
    unfolding try_reclaim_stale_lease
    after_taken-keeps port w kept = elim (Bool-cases (str_eq (lease_name c port) held.name)) [
      | inl same ↦ after_reclaim-Refuses port (wanted port) _ (
          reclaim_got-Refuses _ (protects.get_lease_keeps _ _ w kept)
            (protects.get_held (lease_name c port) w kept same))
      | inr apart ↦
          after_reclaim-other port (wanted port) _
            (reclaim_got-other (lease_name c port) _ (protects.get_lease_keeps _ _ w kept)
              (protects.get_named held.namespace (lease_name c port) w) apart)
            apart
    ]

    after_create-keeps :
        (port : ℤ) (r : Result (Unit {0}) × W)
        → Kept r.1
        → (str_eq (lease_name c port) held.name ≡ true → r.0 ≡ err already_exists)
        → TurnKeeps (after_create c port (wanted port) r)
    unfolding after_create lease_for
    after_create-keeps port (ok a, w) kept taken =
        elim (Bool-cases (str_eq (lease_name c port) held.name)) [
          | inl same ↦ let clash : ok a ≡ err already_exists = taken same in cc
          | inr apart ↦ (apart, kept)
        ]
    after_create-keeps port (err already_exists, w) kept taken = after_taken-keeps port w kept
    after_create-keeps port (err not_found, w) kept taken = kept
    after_create-keeps port (err exhausted, w) kept taken = kept
    after_create-keeps port (err (reserving p e), w) kept taken = kept
    after_create-keeps port (err (other m), w) kept taken = kept

    try_port-keeps :
        (used : List ℤ) (port : ℤ) (w : W)
        → Kept w
        → TurnKeeps (try_port c used held.namespace holder now port w)
    unfolding try_port lease_for
    try_port-keeps used port w kept = elim (Bool-cases (is_used port used)) [
      | inl on_listener ↦ rw on_listener kept
      | inr free ↦ rw free (
          after_create-keeps port (c.create (wanted port) w)
            (protects.create_keeps (wanted port) w kept)
            (λ same. protects.create_taken (wanted port) w kept same refl))
    ]

    continue-keeps :
        (a : PortAllocator) (used : List ℤ) (fuel : ℕ) (port : ℤ) (t : Turn c)
        → TurnKeeps t
        → ((w : W)
            → Kept w
            → AnswerKeeps (allocate_from c a used held.namespace holder now fuel port w))
        → AnswerKeeps (elim t [
          | returned r w ↦ some (r, w)
          | next_port w ↦ allocate_from c a used held.namespace holder now fuel port w
        ])
    continue-keeps a used fuel port (returned r w) keeps rest = keeps
    continue-keeps a used fuel port (next_port w) keeps rest = rest w keeps

    allocate_from-keeps :
        (a : PortAllocator) (used : List ℤ) (fuel : ℕ) (port : ℤ) (w : W)
        → Kept w
        → AnswerKeeps (allocate_from c a used held.namespace holder now fuel port w)
    unfolding allocate_from
    allocate_from-keeps a used zero port w kept = tt
    allocate_from-keeps a used (suc fuel) port w kept =
        elim (Bool-cases (leb_ℤ port a.port_range_end)) [
          | inl inside ↦ rw inside (
              continue-keeps a used fuel (int32 (port +ℤ pos 1)) _ (try_port-keeps used port w kept)
                (λ w' kept'. allocate_from-keeps a used fuel (int32 (port +ℤ pos 1)) w' kept'))
          | inr outside ↦ rw outside kept
        ]

  -- While a lease is held by a set that exists, or by one that was created less than 30 seconds ago,
  -- AllocatePort leaves the lease there, and returns no port that the lease is named for, whatever
  -- the range and the number of turns.
  pub allocate_port-exclusive :
      (a : PortAllocator) (used : List ℤ) (holder : String) (fuel : ℕ) (w : W)
      → Kept w
      → AnswerKeeps (allocate_port c a used held.namespace holder fuel w)
  unfolding allocate_port
  allocate_port-exclusive a used holder fuel w kept =
      allocate_from-keeps holder (c.now w).0 a used fuel a.port_range_start (c.now w).1
        (protects.now_keeps w kept)
