-- ===== src/TcpGateway/Sharding.antt =====
-- The choice of a gateway: pkg/controller/webhooks/tcpgateway/sharding.go. Counts are never
-- negative, and SetupXListenerSetWebhookWithManager builds a GatewaySharding for a positive
-- capacity only, so both are natural numbers. A Go map of counts is a function, 0 where no key is.
pub mod Selection
use appcat.Common.{
  ℕ, suc, ◌+◌, ltb, leb, Bool, true, false, ◌&&◌, String, str_eq, List, [], ◌∷◌, any, keep_if,
  if◌then◌else◌,
}

pub record GatewayKey : Type 0 where
  pub namespace : String
  pub name : String

-- `==` on keys.
unfoldable pub key_eq : GatewayKey → GatewayKey → Bool
key_eq a b = str_eq a.namespace b.namespace && str_eq a.name b.name

-- slices.Contains.
abbrev pub contains_key : List GatewayKey → GatewayKey → Bool
contains_key gateways gw = any (key_eq gw) gateways

pub record GatewaySharding : Type 0 where
  pub gateways : List GatewayKey
  pub capacity : ℕ

-- `full` is the error that all candidates are full.
pub data Answer : Type 0 where
  selected : GatewayKey → Bool → Answer
  full : Answer

unfoldable pub filter_allowed : GatewaySharding → List GatewayKey → List GatewayKey
filter_allowed gs allowed = keep_if (contains_key allowed) gs.gateways

unfoldable pub candidates : GatewaySharding → List GatewayKey → List GatewayKey
candidates gs [] = gs.gateways
candidates gs (gw ∷ allowed) = filter_allowed gs (gw ∷ allowed)

-- The body of the loop over the candidates: `best` and `best_count` are its variables.
unfoldable pub better : ℕ → ℕ → (GatewayKey → ℕ) → GatewayKey → GatewayKey × ℕ → GatewayKey × ℕ
better capacity n counts gw (best, best_count) =
    if leb (counts gw + n) capacity && ltb (counts gw) best_count
    then (gw, counts gw)
    else (best, best_count)

unfoldable pub least_loaded :
    ℕ → ℕ → (GatewayKey → ℕ) → List GatewayKey → GatewayKey × ℕ → GatewayKey × ℕ
least_loaded capacity n counts [] best = best
least_loaded capacity n counts (gw ∷ rest) best =
    least_loaded capacity n counts rest (better capacity n counts gw best)

abbrev pub no_key : GatewayKey
no_key = record { namespace = ""; name = "" }

unfoldable pub select_gateway :
    GatewaySharding → GatewayKey → ℕ → (GatewayKey → ℕ) → List GatewayKey → Answer
select_gateway gs current n counts allowed =
    let (best, best_count) =
      least_loaded gs.capacity n counts (candidates gs allowed) (no_key, suc gs.capacity) in
    if contains_key (candidates gs allowed) current && leb (counts current + n) gs.capacity
    then selected current false
    else (if ltb gs.capacity best_count then full else selected best true)
