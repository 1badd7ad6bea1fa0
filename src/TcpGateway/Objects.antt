-- ===== src/TcpGateway/Objects.antt =====
-- Unstructured objects, and what the webhook reads from them: extractUsedPorts, extractListenerCounts
-- and extractGatewayKey of pkg/controller/webhooks/tcpgateway/allocator.go, and ToInt32 of
-- pkg/common/utils/convert.go.
pub mod Capacity
use appcat.Common.{
  ℕ, zero, suc, ◌+◌, ◌-◌, ◌%◌, ◌^◌, ltb, Bool, true, false, ◌&&◌, not, String, str_eq, List, [],
  ◌∷◌, Option, none, some, length, if◌then◌else◌,
}
use appcat.Common.Int.{ℤ, pos, negsuc, leb_ℤ}
use appcat.TcpGateway.Sharding.{GatewayKey, key_eq}

-- A Go value of type `any`, as the JSON decoders make them. `float64` has the whole part and the
-- digits behind the point.
mutual
  pub data Json : Type 0 where
    null : Json
    boolean : Bool → Json
    int int64 : ℤ → Json
    float64 : ℤ → ℕ → Json
    text : String → Json
    array : Elements → Json
    object : Fields → Json

  pub data Elements : Type 0 where
    no_elements : Elements
    element : Json → Elements → Elements

  pub data Fields : Type 0 where
    no_fields : Fields
    field : String → Json → Fields → Fields

-- The functions of k8s.io/apimachinery on unstructured objects. `nested_slice` and `nested_field`
-- answer `none` for a missing field and for one of another type, `nested_string` the empty text.
-- `float_outside` is the platform's int32 for a float that has none.
pub record Unstructured : Type 0 where
  pub nested_slice : Json → List String → Option (List Json)
  pub nested_string : Json → List String → String
  pub nested_field : Json → String → Option Json
  pub float_outside : ℤ → ℤ

-- The int32 with the given 32 bits.
abbrev pub of_word : ℕ → ℤ
of_word r = if ltb r (2 ^ 31) then pos r else negsuc (2 ^ 32 - 1 - r)

-- Go's conversion of an integer to int32.
unfoldable pub int32 : ℤ → ℤ
int32 (pos n) = of_word (n % 2 ^ 32)
int32 (negsuc n) = of_word (2 ^ 32 - 1 - n % 2 ^ 32)

unfoldable pub to_int32 : Unstructured → Json → ℤ
to_int32 u (int64 p) = int32 p
to_int32 u (float64 p digits) =
    if leb_ℤ (negsuc (2 ^ 31 - 1)) p && leb_ℤ p (pos (2 ^ 31 - 1)) then p else u.float_outside p
to_int32 u (int p) = int32 p
to_int32 u _ = pos 0

abbrev pub listeners_path : List String
listeners_path = "spec" ∷ "listeners" ∷ []

-- usedPorts[p] = true, where p > 0.
unfoldable pub add_port : ℤ → List ℤ → List ℤ
add_port (pos zero) used = used
add_port (pos (suc n)) used = pos (suc n) ∷ used
add_port (negsuc n) used = used

unfoldable pub add_listener : Unstructured → Json → List ℤ → List ℤ
add_listener u (object fields) used = elim (u.nested_field (object fields) "port") [
  | none ↦ used
  | some port ↦ add_port (to_int32 u port) used
]
add_listener u _ used = used

unfoldable pub add_listeners : Unstructured → List Json → List ℤ → List ℤ
add_listeners u [] used = used
add_listeners u (l ∷ listeners) used = add_listeners u listeners (add_listener u l used)

unfoldable pub add_item : Unstructured → Json → List ℤ → List ℤ
add_item u item used = elim (u.nested_slice item listeners_path) [
  | none ↦ used
  | some listeners ↦ add_listeners u listeners used
]

-- The keys of the map `usedPorts`, from those that it has already.
unfoldable pub extract_used_ports : Unstructured → List Json → List ℤ → List ℤ
extract_used_ports u [] used = used
extract_used_ports u (item ∷ items) used = extract_used_ports u items (add_item u item used)

unfoldable pub extract_gateway_key : Unstructured → Json → GatewayKey
extract_gateway_key u obj = record {
  namespace = u.nested_string obj ("spec" ∷ "parentRef" ∷ "namespace" ∷ []);
  name = u.nested_string obj ("spec" ∷ "parentRef" ∷ "name" ∷ []);
}

-- counts[gw] += n.
unfoldable pub add_count : GatewayKey → ℕ → (GatewayKey → ℕ) → GatewayKey → ℕ
add_count gw n counts key = if key_eq gw key then counts key + n else counts key

unfoldable pub count_item : Unstructured → Json → (GatewayKey → ℕ) → GatewayKey → ℕ
count_item u item counts =
    if str_eq (extract_gateway_key u item).name ""
    then counts
    else elim (u.nested_slice item listeners_path) [
      | none ↦ counts
      | some listeners ↦ add_count (extract_gateway_key u item) (length listeners) counts
    ]

-- The map `counts`, from what it holds already.
unfoldable pub extract_listener_counts :
    Unstructured → List Json → (GatewayKey → ℕ) → GatewayKey → ℕ
extract_listener_counts u [] counts = counts
extract_listener_counts u (item ∷ items) counts =
    extract_listener_counts u items (count_item u item counts)
