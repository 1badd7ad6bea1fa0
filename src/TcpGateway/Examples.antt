-- ===== src/TcpGateway/Examples.antt =====
-- Runs of pkg/controller/webhooks/tcpgateway against a cluster with one lease that is held, on two
-- gateways.
mod Requests
use appcat.Common.{
  ℕ, Bool, true, false, ◌||◌, String, str_eq, List, [], ◌∷◌, Option, none, some, any, ◌==◌,
  if◌then◌else◌, ◌≡◌, refl, arith, inr, eq_iff, subst, sym,
}
use appcat.Common.Int.{ℤ, pos, pos_part}
use appcat.TcpGateway.Sharding.{
  GatewayKey, GatewaySharding, selected, key_eq, select_gateway, candidates, filter_allowed,
  least_loaded, better,
}
use appcat.TcpGateway.Sharding.Selection.{Justified, select_gateway_lem}
use appcat.TcpGateway.Objects.{
  Json, int64, text, array, object, Elements, no_elements, element, Fields, no_fields, field,
  Unstructured, extract_gateway_key, extract_listener_counts, count_item, add_count,
  extract_used_ports, add_item, add_listeners, add_listener, add_port, to_int32, int32,
}
use appcat.TcpGateway.Objects.Capacity.{no_counts, WithinCapacity, select_gateway-WithinCapacity}
use appcat.TcpGateway.Cluster.{already_exists, not_found, Result, ok, err, Lease, Cluster, Protects}
use appcat.TcpGateway.Allocator.{allocate_port}
use appcat.TcpGateway.Allocator.Range.{allocator, Outcome, allocate_port_lem}
use appcat.TcpGateway.Allocator.Exclusive.{AnswerKeeps, allocate_port-exclusive}

abbrev find_field : Fields → String → Option Json
find_field no_fields name = none
find_field (field n v fields) name =
    let rest = find_field fields name in if str_eq n name then some v else rest

abbrev follow : Json → List String → Option Json
follow v [] = some v
follow (object fields) (name ∷ path) = elim (find_field fields name) [
  | none ↦ none
  | some v ↦ follow v path
]
follow _ (name ∷ path) = none

abbrev to_list : Elements → List Json
to_list no_elements = []
to_list (element v vs) = v ∷ to_list vs

abbrev as_list : Option Json → Option (List Json)
as_list (some (array vs)) = some (to_list vs)
as_list _ = none

abbrev as_text : Option Json → String
as_text (some (text s)) = s
as_text _ = ""

abbrev pub documents : Unstructured
documents = record {
  nested_slice = λ v path. as_list (follow v path);
  nested_string = λ v path. as_text (follow v path);
  nested_field = λ v name. follow v (name ∷ []);
  float_outside = λ p. pos 0;
}

abbrev gateway_a : GatewayKey
gateway_a = record { namespace = "gw"; name = "a" }

abbrev gateway_b : GatewayKey
gateway_b = record { namespace = "gw"; name = "b" }

abbrev pub two_gateways : GatewaySharding
two_gateways = record { gateways = gateway_a ∷ gateway_b ∷ []; capacity = 2 }

abbrev pub listener : ℤ → Json
listener port = object (field "port" (int64 port) no_fields)

abbrev pub listener_set : String → Elements → Json
listener_set gateway listeners = object (
    field "spec"
      (object (
        field "parentRef"
          (object (field "namespace" (text "gw") (field "name" (text gateway) no_fields)))
          (field "listeners" (array listeners) no_fields)))
      no_fields)

-- Two listeners on the first gateway, one on the second.
abbrev pub three_listeners : List Json
three_listeners =
    listener_set "a" (element (listener (pos 10000)) (element (listener (pos 10001)) no_elements))
    ∷ listener_set "b" (element (listener (pos 10002)) no_elements)
    ∷ []

counts_a : extract_listener_counts documents three_listeners no_counts gateway_a ≡ 2
unfolding extract_listener_counts count_item add_count extract_gateway_key key_eq
counts_a = refl

used_ports :
    extract_used_ports documents three_listeners [] ≡ pos 10002 ∷ pos 10001 ∷ pos 10000 ∷ []
unfolding extract_used_ports add_item add_listeners add_listener add_port to_int32 int32
used_ports = refl

abbrev set_counts : GatewayKey → ℕ
set_counts = extract_listener_counts documents three_listeners no_counts

-- The first gateway is full.
moves : select_gateway two_gateways gateway_a 1 set_counts [] ≡ selected gateway_b true
unfolding select_gateway candidates filter_allowed least_loaded better extract_listener_counts
    count_item add_count extract_gateway_key key_eq
moves = refl

select_gateway_lem_example :
    Justified two_gateways gateway_a 1 set_counts
      (gateway_b ∷ [])
      (select_gateway two_gateways gateway_a 1 set_counts (gateway_b ∷ []))
select_gateway_lem_example = select_gateway_lem two_gateways gateway_a 1 set_counts (gateway_b ∷ [])

three_listeners-WithinCapacity : WithinCapacity documents two_gateways three_listeners
unfolding extract_listener_counts count_item add_count extract_gateway_key key_eq
three_listeners-WithinCapacity = (omega arith, (omega arith, tt))

new_set-key :
    extract_gateway_key documents (listener_set "b" (element (listener (pos 0)) no_elements))
    ≡ gateway_b
unfolding extract_gateway_key
new_set-key = refl

select_gateway-WithinCapacity_example :
    WithinCapacity documents two_gateways
      (listener_set "b" (element (listener (pos 0)) no_elements) ∷ three_listeners)
select_gateway-WithinCapacity_example =
    select_gateway-WithinCapacity documents two_gateways three_listeners gateway_a []
      (listener_set "b" (element (listener (pos 0)) no_elements)) (listener (pos 0) ∷ []) gateway_b
      true three_listeners-WithinCapacity moves new_set-key refl

-- Port 10000 has a lease whose holder is gone for less than 30 seconds.
abbrev held : Lease
held = record {
  name = "tcp-port-10000";
  namespace = "gw";
  uid = "1";
  labels = [];
  holder_identity = some "shop/db";
  acquire_time = some 1000000000;
}

-- A cluster with that lease; the state is the names of the others, all of which are new.
abbrev pub cluster : Cluster (List String)
cluster = record {
  now = λ w. (2000000000, w);
  list_sets = λ w. (ok [], w);
  create = λ l w.
      if str_eq l.name held.name || any (str_eq l.name) w
      then (err already_exists, w)
      else (ok tt, l.name ∷ w);
  get_lease = λ ns name w. (if str_eq name held.name then ok held else err not_found, w);
  get_set = λ ns name w. (err not_found, w);
  delete = λ l w. (err not_found, w);
  format_port = λ p.
      if pos_part p == 10000 then "10000" else (if pos_part p == 10001 then "10001" else "another");
}

abbrev Always : List String → Type 0
Always w = Unit

answered-name :
    (name : String) (l : Lease) (b : Bool)
    → str_eq name held.name ≡ b
    → (if b then ok held else err not_found) ≡ ok l
    → l.name ≡ name
answered-name name l true same answered =
    let here : held ≡ l = cc in
    subst (λ x. x.name ≡ name) here (sym ((eq_iff name held.name).0 same))
answered-name name l false apart answered = cc

held-Protects : Protects cluster held Always
held-Protects = record {
  now_keeps = λ w k. k;
  get_lease_keeps = λ ns name w k. k;
  get_set_keeps = λ ns name w k. k;
  create_keeps = λ l w k. tt;
  create_taken = λ l w k same place. rw same refl;
  get_held = λ name w k same. rw same refl;
  get_named = λ ns name w l answered. answered-name name l (str_eq name held.name) refl answered;
  delete_keeps = λ l w k apart. k;
  holder = "shop/db";
  holder_named = (refl, refl);
  holder_alive = λ w k. inr (refl, (1000000000, refl, λ w' k'. omega arith));
}

allocate_port_lem_example :
    (r : Result ℤ) × (w' : List String) × (allocate_port cluster
        (allocator 10000 10001)
        []
        "gw"
        "shop/new"
        3
        []
      ≡ some (r, w'))
    × Outcome cluster [] "gw" "shop/new" 2000000000 10000 10001 r w'
allocate_port_lem_example =
    allocate_port_lem cluster [] "gw" "shop/new" 10000 10001 [] (omega arith) (omega arith)

allocate_port-exclusive_example :
    AnswerKeeps held-Protects
      (allocate_port cluster (allocator 10000 10001) [] "gw" "shop/new" 3 [])
allocate_port-exclusive_example =
    allocate_port-exclusive held-Protects (allocator 10000 10001) [] "shop/new" 3 [] tt
