-- ===== src/TcpGateway/Handler/Admission.antt =====
-- What an answer of the handler of pkg/controller/webhooks/tcpgateway/handler.go says of the set.
use appcat.Common.{ℕ, ◌+◌, ◌≤◌, String, List, some, length, ◌≡◌}
use appcat.Common.Filters.{IsIn}
use appcat.TcpGateway.Sharding.{GatewayKey, GatewaySharding}
use appcat.TcpGateway.Sharding.Selection.{IsAllowed}
use appcat.TcpGateway.Objects.{Json, Fields, Unstructured, extract_listener_counts}
use appcat.TcpGateway.Cluster.{Result, ok, Cluster}
use appcat.TcpGateway.Handler.{
  get, list_of, parse_allowed_gateways, XListenerSetHandler, Response, allowed, patched, parent_key,
  Placement, unnamed, crowded, stays, moves,
}
use appcat.TcpGateway.Handler.Frame.{under, Kept}

module _ {W : Type 0} (c : Cluster W) (u : Unstructured) (h : XListenerSetHandler)
    (marshal : Fields → Result String) (fuel : ℕ) where
  -- The object that an answer admits, if it admits one.
  pub data Admits (obj : Fields) : Response → Fields → Type 0 where
    unchanged : Admits obj allowed obj
    changed :
        (raw new : String) (obj' : Fields)
        → marshal obj' ≡ ok new
        → Admits obj (patched raw new) obj'

  -- The gateway of an admitted object is configured, allowed and has room for its listeners.
  pub record HasRoom (gs : GatewaySharding) (items : List Json) (obj obj' : Fields) : Type 0 where
    pub configured : IsIn (parent_key (under "spec" obj')) gs.gateways
    pub permitted :
        IsAllowed
          (parse_allowed_gateways (under "metadata" obj) (parent_key (under "spec" obj)).namespace)
          (parent_key (under "spec" obj'))
    pub room :
        extract_listener_counts u items (λ key. 0) (parent_key (under "spec" obj'))
          + length (list_of (get (under "spec" obj) "listeners"))
        ≤ gs.capacity

  -- What a choice of a gateway promises.
  Chosen : GatewaySharding → List Json → Fields → GatewayKey → Type 0
  Chosen gs items obj gw =
      IsIn gw gs.gateways
      × IsAllowed
          (parse_allowed_gateways (under "metadata" obj) (parent_key (under "spec" obj)).namespace)
          gw
      × (extract_listener_counts u items (λ key. 0) gw
            + length (list_of (get (under "spec" obj) "listeners"))
          ≤ gs.capacity)

  Promises : GatewaySharding → List Json → Fields → Placement → Type 0
  Promises gs items obj unnamed = Unit
  Promises gs items obj crowded = Unit
  Promises gs items obj stays = Chosen gs items obj (parent_key (under "spec" obj))
  Promises gs items obj (moves gw) = Chosen gs items obj gw

  -- What is known of an answer that lets an object in.
  pub record Admission (items : List Json) (obj : Fields) (resp : Response) : Type 0 where
    pub final : Fields
    pub admits : Admits obj resp final
    pub kept : Kept obj final
    pub room : (gs : GatewaySharding) → h.sharding ≡ some gs → HasRoom gs items obj final
