-- ===== src/TcpGateway/Allocator/Range.antt =====
-- Which port AllocatePort of pkg/controller/webhooks/tcpgateway/allocator.go returns, and when it
-- returns none.
use appcat.Common.{
  ℕ, zero, suc, ◌+◌, ◌-◌, ◌%◌, ◌^◌, ◌≤◌, ◌<◌, Bool, true, false, String, List, some, ◌≡◌, refl,
  arith, ◌⊎◌, inl, inr, Bool-cases, ltb, lt→ltb, subst, sym, ap, ◌∙◌,
}
use appcat.Common.Int.{ℤ, pos, ◌+ℤ◌, leb_ℤ}
use appcat.TcpGateway.Objects.{int32}
use appcat.TcpGateway.Cluster.{
  Error, already_exists, not_found, exhausted, reserving, other, Result, ok, err, Cluster,
}
use appcat.TcpGateway.Allocator.{
  PortAllocator, is_used, lease_for, Turn, returned, next_port, after_retry, after_reclaim,
  after_create, try_port, allocate_from, allocate_port,
}

abbrev pub allocator : ℕ → ℕ → PortAllocator
allocator s e = record { port_range_start = pos s; port_range_end = pos e }

pos_suc : (p : ℕ) → pos p +ℤ pos 1 ≡ pos (suc p)
unfolding ◌+ℤ◌
pos_suc p = ground arith

int32-pos : (n : ℕ) → n < 2 ^ 31 → int32 (pos n) ≡ pos n
unfolding int32
int32-pos n small =
    let same : n % 2 ^ 32 ≡ n = omega (arith, small) in rw same (rw (lt→ltb n (2 ^ 31) small) refl)

int32-suc : (p : ℕ) → suc p < 2 ^ 31 → int32 (pos p +ℤ pos 1) ≡ pos (suc p)
int32-suc p small = ap int32 (pos_suc p) ∙ int32-pos (suc p) small

module _ {W : Type 0} (c : Cluster W) (used : List ℤ) (namespace holder : String) (now : ℕ) where
  -- The last call was the one that created the port's lease.
  abbrev pub Reserved : ℤ → W → Type 0
  Reserved port w' = (w : W) × (c.create (lease_for c port namespace holder now) w ≡ (ok tt, w'))

  -- The port is on a listener, or its lease was there.
  abbrev pub Refused : ℤ → Type 0
  Refused port =
      (is_used port used ≡ true)
      ⊎ ((w : W) × ((c.create (lease_for c port namespace holder now) w).0 ≡ err already_exists))

  abbrev pub TurnSound : ℤ → Turn c → Type 0
  TurnSound port (returned (ok p) w) = (p ≡ port) × (is_used port used ≡ false) × Reserved port w
  TurnSound port (returned (err e) w) = (cause : Error) × (e ≡ reserving port cause)
  TurnSound port (next_port w) = Refused port

  after_retry-TurnSound :
      (port : ℤ) (w : W) (r : Result (Unit {0}) × W)
      → is_used port used ≡ false
      → Refused port
      → c.create (lease_for c port namespace holder now) w ≡ r
      → TurnSound port (after_retry c port r)
  unfolding after_retry
  after_retry-TurnSound port w (ok tt, w') free refused made = (refl, free, (w, made))
  after_retry-TurnSound port w (err e, w') free refused made = refused

  after_reclaim-TurnSound :
      (port : ℤ) (r : Bool × W)
      → is_used port used ≡ false
      → Refused port
      → TurnSound port (after_reclaim c port (lease_for c port namespace holder now) r)
  unfolding after_reclaim
  after_reclaim-TurnSound port (true, w) free refused =
      after_retry-TurnSound port w _ free refused refl
  after_reclaim-TurnSound port (false, w) free refused = refused

  after_create-TurnSound :
      (port : ℤ) (w : W) (r : Result (Unit {0}) × W)
      → is_used port used ≡ false
      → c.create (lease_for c port namespace holder now) w ≡ r
      → TurnSound port (after_create c port (lease_for c port namespace holder now) r)
  unfolding after_create
  after_create-TurnSound port w (ok tt, w') free made = (refl, free, (w, made))
  after_create-TurnSound port w (err already_exists, w') free made =
      after_reclaim-TurnSound port _ free (inr (w, ap (λ r. r.0) made))
  after_create-TurnSound port w (err not_found, w') free made = (not_found, refl)
  after_create-TurnSound port w (err exhausted, w') free made = (exhausted, refl)
  after_create-TurnSound port w (err (reserving q e), w') free made = (reserving q e, refl)
  after_create-TurnSound port w (err (other m), w') free made = (other m, refl)

  try_port-TurnSound :
      (port : ℤ) (w : W) → TurnSound port (try_port c used namespace holder now port w)
  unfolding try_port
  try_port-TurnSound port w = elim (Bool-cases (is_used port used)) [
    | inl taken ↦ rw taken (inl taken)
    | inr free ↦ rw free (after_create-TurnSound port w _ free refl)
  ]

  -- What the answer means, for the ports from `s` to `e`.
  abbrev pub Outcome : ℕ → ℕ → Result ℤ → W → Type 0
  Outcome s e (ok port) w =
      (q : ℕ) × (port ≡ pos q) × (s ≤ q) × (q ≤ e) × (is_used port used ≡ false) × Reserved port w
  Outcome s e (err exhausted) w = (q : ℕ) → s ≤ q → q ≤ e → Refused (pos q)
  Outcome s e (err (reserving port cause)) w = (q : ℕ) × (port ≡ pos q) × (s ≤ q) × (q ≤ e)
  Outcome s e (err _) w = ⊥

  returned-Outcome :
      (s e p : ℕ) (r : Result ℤ) (w : W)
      → s ≤ p
      → p ≤ e
      → TurnSound (pos p) (returned r w)
      → Outcome s e r w
  returned-Outcome s e p (ok port) w low high (same, free, reserved) =
      (p, same, low, high, rw same free, rw same reserved)
  returned-Outcome s e p (err f) w low high (cause, same) =
      subst (λ x. Outcome s e (err x) w) (sym same) (p, refl, low, high)

  Turn-cases :
      (t : Turn c) → ((r : Result ℤ) × (w : W) × (t ≡ returned r w)) ⊎ ((w : W) × (t ≡ next_port w))
  Turn-cases (returned r w) = inl (r, w, refl)
  Turn-cases (next_port w) = inr (w, refl)

  allocate_from_lem :
      (s e fuel p : ℕ) (w : W)
      → suc e < 2 ^ 31
      → s ≤ p
      → p ≤ suc e
      → suc (suc e) ≤ p + fuel
      → ((q : ℕ) → s ≤ q → q < p → Refused (pos q))
      → (r : Result ℤ) × (w' : W) × (allocate_from c
            (allocator s e)
            used
            namespace
            holder
            now
            fuel
            (pos p)
            w
          ≡ some (r, w'))
        × Outcome s e r w'
  unfolding allocate_from
  allocate_from_lem s e zero p w small low high enough refused = absurd (omega arith)
  allocate_from_lem s e (suc fuel) p w small low high enough refused =
      elim (Bool-cases (leb_ℤ (pos p) (pos e))) [
        | inl inside ↦ elim (Turn-cases (try_port c used namespace holder now (pos p) w)) [
          | inl (r, w', done) ↦ (
            r,
            w',
            rw (inside, done) refl,
            returned-Outcome s e p r w' low (ground arith)
                (subst (TurnSound (pos p)) done (try_port-TurnSound (pos p) w)),
          )
          | inr (w', on) ↦
              let within : p ≤ e = ground arith in
              let next = int32-suc p (omega (arith, small)) in
              let further : (q : ℕ) → s ≤ q → q < suc p → Refused (pos q) = λ q from to.
                elim (Bool-cases (ltb q p)) [
                  | inl before ↦ refused q from (ground arith)
                  | inr here ↦
                      let same : p ≡ q = ground arith in
                      subst (λ x. Refused (pos x)) same
                        (subst (TurnSound (pos p)) on (try_port-TurnSound (pos p) w))
                ] in
              let (r, w'', found, outcome) =
                allocate_from_lem s e fuel (suc p) w' small (omega arith) (ground arith)
                  (omega arith) further in
              (r, w'', rw (inside, on, next) found, outcome)
        ]
        | inr outside ↦
            (err exhausted, w, rw outside refl, λ q from to. refused q from (ground arith))
      ]

-- Under a range of ports from `s` to `e` where `e` + 1 is an int32, as many turns as there are
-- ports and one more are enough for an answer. A port that is returned is in the range, is on no
-- listener, and the last call created its lease. If the answer is that the range is exhausted, each
-- port of the range was on a listener or had a lease. Any other error names a port of the range.
pub allocate_port_lem :
    {W : Type 0} (c : Cluster W) (used : List ℤ) (namespace holder : String) (s e : ℕ) (w : W)
    → s ≤ suc e
    → suc e < 2 ^ 31
    → (r : Result ℤ) × (w' : W) × (allocate_port c
          (allocator s e)
          used
          namespace
          holder
          (suc (suc e - s))
          w
        ≡ some (r, w'))
      × Outcome c used namespace holder (c.now w).0 s e r w'
unfolding allocate_port
allocate_port_lem c used namespace holder s e w range small =
    allocate_from_lem c used namespace holder (c.now w).0 s e (suc (suc e - s)) s (c.now w).1 small
      (omega arith) range (omega arith) (λ q from to. absurd (omega arith))
