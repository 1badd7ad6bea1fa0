-- ===== src/TcpGateway/Sharding/Selection.antt =====
-- What SelectGateway of pkg/controller/webhooks/tcpgateway/sharding.go answers.
use appcat.Common.{
  ℕ, suc, ◌+◌, ◌≤◌, ◌<◌, ltb, leb, true, false, ◌&&◌, List, [], ◌∷◌, All, some, ◌≡◌, refl, arith,
  ◌⊎◌, inl, inr, Bool-cases, sym, ap, All-mono, eq_iff,
}
use appcat.Common.Filters.{IsIn, keep_if-IsIn}
use appcat.TcpGateway.Sharding.{
  GatewayKey, GatewaySharding, Answer, selected, full, key_eq, contains_key, candidates,
  filter_allowed, better, least_loaded, select_gateway, no_key,
}

pub key_eq-path : (a b : GatewayKey) → key_eq a b ≡ true → a ≡ b
unfolding key_eq
key_eq-path a b h =
    let namespaces : a.namespace ≡ b.namespace =
      (eq_iff a.namespace b.namespace).0 (ground arith) in
    let names : a.name ≡ b.name = (eq_iff a.name b.name).0 (ground arith) in
    λ i. record { namespace = namespaces i; name = names i }

contains_key-IsIn :
    (gateways : List GatewayKey) (gw : GatewayKey)
    → contains_key gateways gw ≡ true
    → IsIn gw gateways
contains_key-IsIn [] gw h = cc
contains_key-IsIn (x ∷ xs) gw h = elim (Bool-cases (key_eq gw x)) [
  | inl same ↦ (0, ap some (sym (key_eq-path gw x same)))
  | inr other ↦ let (k, at) = contains_key-IsIn xs gw (ground arith) in (suc k, at)
]

-- What the gateway that is chosen has to be: configured, and allowed if a list of allowed ones is
-- given.
abbrev pub IsAllowed : List GatewayKey → GatewayKey → Type 0
IsAllowed [] gw = Unit
IsAllowed (a ∷ allowed) gw = contains_key (a ∷ allowed) gw ≡ true

IsIn-candidates :
    (gs : GatewaySharding) (allowed : List GatewayKey) (gw : GatewayKey)
    → IsIn gw (candidates gs allowed)
    → IsIn gw gs.gateways × IsAllowed allowed gw
unfolding candidates filter_allowed
IsIn-candidates gs [] gw h = (h, tt)
IsIn-candidates gs (a ∷ allowed) gw (k, at) =
    keep_if-IsIn (contains_key (a ∷ allowed)) gs.gateways k at

module _ (capacity n : ℕ) (counts : GatewayKey → ℕ) where
  abbrev pub Fits : GatewayKey → Type 0
  Fits gw = counts gw + n ≤ capacity

  -- The gateway fits, and no other that fits has fewer listeners.
  abbrev pub IsLeast : List GatewayKey → GatewayKey → Type 0
  IsLeast gateways gw =
      IsIn gw gateways × Fits gw × All (λ x. Fits x → counts gw ≤ counts x) gateways

  least_loaded-cases :
      (xs : List GatewayKey) (best : GatewayKey) (best_count : ℕ)
      → ((least_loaded capacity n counts xs (best, best_count) ≡ (best, best_count))
          × All (λ x. Fits x → best_count ≤ counts x) xs)
        ⊎ ((gw : GatewayKey) × (least_loaded capacity n counts xs (best, best_count)
              ≡ (gw, counts gw))
            × (counts gw < best_count)
            × IsLeast xs gw)
  unfolding least_loaded better
  least_loaded-cases [] best best_count = inl (refl, tt)
  least_loaded-cases (x ∷ xs) best best_count =
      elim (Bool-cases (leb (counts x + n) capacity && ltb (counts x) best_count)) [
        | inl wins ↦ elim (least_loaded-cases xs x (counts x)) [
          | inl (same, rest) ↦
              inr
                (x, rw wins same, ground arith, ((0, refl), ground arith, (λ _. omega arith, rest)))
          | inr (gw, found, less, ((k, at), fits, rest)) ↦
              inr (gw, rw wins found, ground arith, ((suc k, at), fits, (λ _. omega arith, rest)))
        ]
        | inr loses ↦ elim (least_loaded-cases xs best best_count) [
          | inl (same, rest) ↦ inl (rw loses same, (λ f. ground arith, rest))
          | inr (gw, found, less, ((k, at), fits, rest)) ↦
              inr (gw, rw loses found, less, ((suc k, at), fits, (λ f. ground arith, rest)))
        ]
      ]

-- What each answer promises.
abbrev pub Justified :
    GatewaySharding → GatewayKey → ℕ → (GatewayKey → ℕ) → List GatewayKey → Answer → Type 0
Justified gs current n counts allowed (selected gw false) =
    (gw ≡ current) × IsIn gw gs.gateways × IsAllowed allowed gw × (counts gw + n ≤ gs.capacity)
Justified gs current n counts allowed (selected gw true) =
    ((contains_key (candidates gs allowed) current && leb (counts current + n) gs.capacity) ≡ false)
    × IsIn gw gs.gateways
    × IsAllowed allowed gw
    × IsLeast gs.capacity n counts (candidates gs allowed) gw
Justified gs current n counts allowed full =
    All (λ gw. gs.capacity < counts gw + n) (candidates gs allowed)

-- SelectGateway keeps the current gateway only if it is a candidate and has room. A gateway that it
-- moves to is configured, is allowed if a list of allowed gateways is given, has room, and has the
-- fewest listeners of all candidates with room; it moves only if the current one cannot be kept. The
-- answer is that all are full only if no candidate has room.
pub select_gateway_lem :
    (gs : GatewaySharding) (current : GatewayKey) (n : ℕ) (counts : GatewayKey → ℕ)
    (allowed : List GatewayKey)
    → Justified gs current n counts allowed (select_gateway gs current n counts allowed)
unfolding select_gateway
select_gateway_lem gs current n counts allowed =
    elim (Bool-cases
      (contains_key (candidates gs allowed) current && leb (counts current + n) gs.capacity)) [
        | inl stays ↦
            let (inside, permitted) =
              IsIn-candidates gs allowed current
                (contains_key-IsIn (candidates gs allowed) current (ground arith)) in
            rw stays (refl, inside, permitted, ground arith)
        | inr leaves ↦
            elim (least_loaded-cases gs.capacity n counts (candidates gs allowed) no_key
              (suc gs.capacity)) [
                | inl (same, rest) ↦
                    let over : ltb gs.capacity (suc gs.capacity) ≡ true = ground arith in
                    rw (leaves, same, over)
                      (All-mono _ _ (λ x low. ground arith) (candidates gs allowed) rest)
                | inr (gw, found, less, least) ↦
                    let (inside, permitted) = IsIn-candidates gs allowed gw least.0 in
                    let under : ltb gs.capacity (counts gw) ≡ false = ground arith in
                    rw (leaves, found, under) (leaves, inside, permitted, least)
              ]
      ]
