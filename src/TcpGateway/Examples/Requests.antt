-- ===== src/TcpGateway/Examples/Requests.antt =====
-- Runs of the handler of pkg/controller/webhooks/tcpgateway/handler.go: a set with one port to allocate
-- is sent to a gateway that is full.
use appcat.Common.{String, str_eq, List, some, if◌then◌else◌}
use appcat.Common.Int.{pos}
use appcat.TcpGateway.Objects.{
  float64, text, array, object, no_elements, element, Fields, no_fields, field,
}
use appcat.TcpGateway.Cluster.{other, Result, ok, err, Cluster}
use appcat.TcpGateway.Allocator.Range.{allocator}
use appcat.TcpGateway.Handler.{get, map_or_nil, text_of, XListenerSetHandler}
use appcat.TcpGateway.Handler.Admission.{Admission}
use appcat.TcpGateway.Examples.{two_gateways, three_listeners, cluster}

abbrev new_set : Fields
new_set =
    field "metadata" (object (field "name" (text "db") (field "namespace" (text "shop") no_fields)))
      (field "spec"
        (object (
          field "parentRef"
            (object (field "name" (text "a") (field "namespace" (text "gw") no_fields)))
            (field "listeners"
              (array (element (object (field "port" (float64 (pos 0) 0) no_fields)) no_elements))
              no_fields)))
        no_fields)

abbrev busy_cluster : Cluster (List String)
busy_cluster = record cluster { list_sets = λ w. (ok three_listeners, w) }

abbrev handler : XListenerSetHandler
handler = record {
  allocator = allocator 10000 10003;
  sharding = some two_gateways;
  lease_ns = "gw";
}

abbrev unmarshal : String → Result Fields
unmarshal raw = if str_eq raw "set" then ok new_set else err (other raw)

-- The text of an object is the name of its gateway.
abbrev marshal : Fields → Result String
marshal obj = ok (text_of (get (map_or_nil (get (map_or_nil (get obj "spec")) "parentRef")) "name"))
