-- ===== src/TcpGateway/Handler.antt =====
-- The admission of a new XListenerSet: pkg/controller/webhooks/tcpgateway/handler.go. A Go map is the
-- list of its fields; a map that is nil reads like an empty one. The JSON reader and writer and what
-- controller-runtime makes of a patched object are parameters.
pub mod Frame
pub mod Ports
pub mod Admission
pub mod Total
use appcat.Common.{
  ℕ, ◌==◌, Bool, true, false, String, str_eq, List, [], ◌∷◌, Option, none, some, length,
  if◌then◌else◌,
}
use appcat.Common.Int.{ℤ, pos, negsuc}
use appcat.Common.Text.{split, trim_space}
use appcat.TcpGateway.Sharding.{GatewayKey, GatewaySharding, Answer, selected, full, select_gateway}
use appcat.TcpGateway.Objects.{
  Json, null, boolean, int, int64, float64, text, array, object, Elements, no_elements, element,
  Fields, no_fields, field, Unstructured, to_int32, extract_used_ports, extract_listener_counts,
}
use appcat.TcpGateway.Cluster.{Error, other, Result, ok, err, Cluster}
use appcat.TcpGateway.Allocator.{PortAllocator, allocate_port}
use Prim.Native.String.{◌++◌ as text_append}

-- m[name], if it is there.
unfoldable pub get : Fields → String → Option Json
get no_fields name = none
get (field n v fields) name = let rest = get fields name in if str_eq n name then some v else rest

-- m[name] = v.
unfoldable pub set : String → Json → Fields → Fields
set name v no_fields = field name v no_fields
set name v (field n u fields) =
    let rest = set name v fields in if str_eq n name then field n v fields else field n u rest

-- Go's type assertions, with the zero value of the type where they fail.
abbrev pub as_fields : Option Json → Option Fields
as_fields (some (object fields)) = some fields
as_fields _ = none

abbrev pub fields_or_nil : Option Fields → Fields
fields_or_nil none = no_fields
fields_or_nil (some fields) = fields

abbrev pub map_or_nil : Option Json → Fields
map_or_nil v = fields_or_nil (as_fields v)

abbrev pub text_of : Option Json → String
text_of (some (text s)) = s
text_of _ = ""

abbrev pub to_list : Elements → List Json
to_list no_elements = []
to_list (element v vs) = v ∷ to_list vs

abbrev pub list_of : Option Json → List Json
list_of (some (array vs)) = to_list vs
list_of _ = []

abbrev pub value_or_nil : Option Json → Json
value_or_nil none = null
value_or_nil (some v) = v

abbrev pub allowed_annotation : String
allowed_annotation = "appcat.vshn.io/allowed-gateways"

abbrev pub allocated_annotation : String
allocated_annotation = "appcat.vshn.io/allocated-port"

unfoldable pub named_keys : String → List String → List GatewayKey
named_keys gateway_ns [] = []
named_keys gateway_ns (n ∷ names) =
    let rest = named_keys gateway_ns names in
    let name = trim_space n in
    if str_eq name "" then rest else record { namespace = gateway_ns; name = name } ∷ rest

unfoldable pub parse_allowed_gateways : Fields → String → List GatewayKey
parse_allowed_gateways metadata gateway_ns =
    let raw = text_of (get (map_or_nil (get metadata "annotations")) allowed_annotation) in
    if str_eq raw "" then [] else named_keys gateway_ns (split b',' raw)

pub record XListenerSetHandler : Type 0 where
  pub allocator : PortAllocator
  pub sharding : Option GatewaySharding
  pub lease_ns : String

-- An answer to an admission request: `errored` has the HTTP status, `patched` the bytes of the object
-- before and after.
pub data Response : Type 0 where
  allowed name_required no_room missing_spec : Response
  errored : ℕ → Error → Response
  patched : String → String → Response

-- The gateway that spec.parentRef names.
unfoldable pub parent_key : Fields → GatewayKey
parent_key spec = record {
  namespace = text_of (get (map_or_nil (get spec "parentRef")) "namespace");
  name = text_of (get (map_or_nil (get spec "parentRef")) "name");
}

-- The part of the handler under `h.sharding != nil`.
pub data Placement : Type 0 where
  unnamed crowded stays : Placement
  moves : GatewayKey → Placement

unfoldable pub placement : Answer → Placement
placement (selected gw false) = stays
placement (selected gw true) = moves gw
placement full = crowded

unfoldable pub set_parent : GatewayKey → Fields → Fields → Fields
set_parent gw spec obj =
    let parent_ref = set "name" (text gw.name) (map_or_nil (get spec "parentRef")) in
    set "spec"
      (object (set "parentRef" (object (set "namespace" (text gw.namespace) parent_ref)) spec)) obj

-- The annotation that has the port, under maps that are made where they are missing.
unfoldable pub set_port : String → Fields → Fields
set_port port obj =
    let metadata = map_or_nil (get obj "metadata") in
    let anns = map_or_nil (get metadata "annotations") in
    set "metadata"
      (object (set "annotations" (object (set allocated_annotation (text port) anns)) metadata)) obj

abbrev pub is_zero : ℤ → Bool
is_zero (pos n) = n == 0
is_zero (negsuc n) = false

module _ {W : Type 0} (c : Cluster W) (u : Unstructured) (h : XListenerSetHandler)
    (marshal : Fields → Result String) (fuel : ℕ) where
  unfoldable pub place : GatewaySharding → List Json → Fields → Fields → Placement
  place gs items metadata spec =
      let current = parent_key spec in
      if str_eq current.name ""
      then unnamed
      else placement (
          select_gateway gs current (length (list_of (get spec "listeners")))
            (extract_listener_counts u items (λ key. 0))
            (parse_allowed_gateways metadata current.namespace))

  unfoldable pub place_if_sharded : Option GatewaySharding → List Json → Fields → Fields → Placement
  place_if_sharded none items metadata spec = stays
  place_if_sharded (some gs) items metadata spec = place gs items metadata spec

  -- A port that is missing counts as 0.
  unfoldable pub needs_port : Json → Bool
  needs_port (object listener) = is_zero (to_int32 u (value_or_nil (get listener "port")))
  needs_port _ = false

  abbrev pub Allocated : Type 0
  Allocated = Option (Result (Fields × Bool) × W)

  -- The port of one listener; `rest` is the loop from the next one on.
  unfoldable pub after_port : (Fields → W → Allocated) → Fields → Option (Result ℤ × W) → Allocated
  after_port rest obj none = none
  after_port rest obj (some (err e, w)) = some (err e, w)
  after_port rest obj (some (ok port, w)) = rest (set_port (c.format_port port) obj) w

  -- The loop over the listeners, with the object and `modified`; `none` if the fuel of AllocatePort
  -- does not last.
  unfoldable pub allocate_listeners : List ℤ → String → List Json → Fields × Bool → W → Allocated
  allocate_listeners used holder [] state w = some (ok state, w)
  allocate_listeners used holder (l ∷ listeners) (obj, modified) w = elim (needs_port l) [
    | false ↦ allocate_listeners used holder listeners (obj, modified) w
    | true ↦
        after_port (λ obj' w'. allocate_listeners used holder listeners (obj', true) w') obj
          (allocate_port c h.allocator used h.lease_ns holder fuel w)
  ]

  -- The answer to a modified object.
  unfoldable pub patch_with : String → W → Result String → Option (Response × W)
  patch_with raw w (err e) = some (errored 500 e, w)
  patch_with raw w (ok new) = some (patched raw new, w)

  unfoldable pub respond : String → Option (Result (Fields × Bool) × W) → Option (Response × W)
  respond raw none = none
  respond raw (some (err e, w)) = some (errored 500 e, w)
  respond raw (some (ok (obj, false), w)) = some (allowed, w)
  respond raw (some (ok (obj, true), w)) = patch_with raw w (marshal obj)

  -- "namespace/name" of the set.
  unfoldable pub holder_of : Fields → String
  holder_of metadata =
      text_append (text_of (get metadata "namespace"))
        (text_append "/" (text_of (get metadata "name")))

  unfoldable pub assign_ports :
      String → Fields → Fields × Bool → Fields → List Json → W → Option (Response × W)
  assign_ports raw metadata state spec items w = respond raw (
      allocate_listeners (extract_used_ports u items []) (holder_of metadata)
        (list_of (get spec "listeners")) state w)

  unfoldable pub after_placement :
      String → Fields → Fields → List Json → W → Placement → Option (Response × W)
  after_placement raw obj spec items w unnamed = some (name_required, w)
  after_placement raw obj spec items w crowded = some (no_room, w)
  after_placement raw obj spec items w stays =
      assign_ports raw (map_or_nil (get obj "metadata")) (obj, false) spec items w
  after_placement raw obj spec items w (moves gw) =
      assign_ports raw (map_or_nil (get obj "metadata")) (set_parent gw spec obj, true) spec items w

  unfoldable pub with_items :
      String → Fields → Fields → Result (List Json) × W → Option (Response × W)
  with_items raw obj spec (err e, w) = some (errored 500 e, w)
  with_items raw obj spec (ok items, w) =
      after_placement raw obj spec items w
        (place_if_sharded h.sharding items (map_or_nil (get obj "metadata")) spec)

  unfoldable pub handle_object : String → Fields → Option Fields → W → Option (Response × W)
  handle_object raw obj none w = some (missing_spec, w)
  handle_object raw obj (some spec) w = with_items raw obj spec (c.list_sets w)

  unfoldable pub handle_raw : String → Result Fields → W → Option (Response × W)
  handle_raw raw (err e) w = some (errored 400 e, w)
  handle_raw raw (ok obj) w = handle_object raw obj (as_fields (get obj "spec")) w

  unfoldable pub handle : (String → Result Fields) → String → String → W → Option (Response × W)
  handle unmarshal operation raw w =
      if str_eq operation "CREATE" then handle_raw raw (unmarshal raw) w else some (allowed, w)
