-- ===== src/TcpGateway/Handler/Total.antt =====
-- The handler of pkg/controller/webhooks/tcpgateway/handler.go always answers.
use appcat.Common.{
  ℕ, suc, ◌-◌, ◌^◌, ◌≤◌, ◌<◌, Bool, true, false, String, str_eq, List, [], ◌∷◌, Option, none, some,
  ◌≡◌, refl, sym, ap, ◌∙◌, subst, inl, inr, Bool-cases,
}
use appcat.Common.Int.{ℤ}
use appcat.TcpGateway.Objects.{Json, Fields, Unstructured}
use appcat.TcpGateway.Cluster.{Result, ok, err, Cluster}
use appcat.TcpGateway.Allocator.{allocate_port}
use appcat.TcpGateway.Allocator.Range.{allocator, allocate_port_lem}
use appcat.TcpGateway.Handler.{
  get, as_fields, XListenerSetHandler, allowed, Placement, unnamed, crowded, stays, moves,
  set_parent, set_port, needs_port, after_port, patch_with, allocate_listeners, respond,
  assign_ports, after_placement, with_items, handle_object, handle_raw, handle,
}

-- A computation on fuel that has an answer.
abbrev pub Answers : {A W : Type 0} → Option (A × W) → Type 0
Answers {A} {W} o = (a : A) × (w : W) × (o ≡ some (a, w))

module _ {W : Type 0} (c : Cluster W) (u : Unstructured) (h : XListenerSetHandler)
    (marshal : Fields → Result String) (s e : ℕ) (ranged : h.allocator ≡ allocator s e)
    (range : s ≤ suc e) (small : suc e < 2 ^ 31) where
  abbrev pub turns : ℕ
  turns = suc (suc e - s)

  allocate_port-Answers :
      (used : List ℤ) (holder : String) (w : W)
      → Answers (allocate_port c h.allocator used h.lease_ns holder turns w)
  allocate_port-Answers used holder w =
      let (r, w', found, _) = allocate_port_lem c used h.lease_ns holder s e w range small in
      (r, w', ap (λ a. allocate_port c a used h.lease_ns holder turns w) ranged ∙ found)

  after_port-Answers :
      (rest : Fields → W → Option (Result (Fields × Bool) × W)) (obj : Fields) (r : Result ℤ)
      (w : W)
      → ((obj' : Fields) (w' : W) → Answers (rest obj' w'))
      → Answers (after_port c u h marshal turns rest obj (some (r, w)))
  unfolding after_port
  after_port-Answers rest obj (err er) w further = (err er, w, refl)
  after_port-Answers rest obj (ok port) w further = further (set_port (c.format_port port) obj) w

  allocate_listeners-Answers :
      (used : List ℤ) (holder : String) (listeners : List Json) (obj : Fields) (m : Bool) (w : W)
      → Answers (allocate_listeners c u h marshal turns used holder listeners (obj, m) w)
  unfolding allocate_listeners
  allocate_listeners-Answers used holder [] obj m w = (ok (obj, m), w, refl)
  allocate_listeners-Answers used holder (l ∷ listeners) obj m w =
      elim (Bool-cases (needs_port c u h marshal turns l)) [
        | inr has ↦
            rw (has, allocate_listeners) (allocate_listeners-Answers used holder listeners obj m w)
        | inl needs ↦
            let (r, w', found) = allocate_port-Answers used holder w in
            rw (needs, allocate_listeners)
              (subst
                (λ o. Answers (
                  after_port c u h marshal turns
                    (λ obj' w''.
                      allocate_listeners c u h marshal turns used holder listeners (obj', true) w'')
                    obj o))
                (sym found)
                (after_port-Answers _ obj r w'
                  (λ obj₁ w₁. allocate_listeners-Answers used holder listeners obj₁ true w₁)))
      ]

  patch_with-Answers :
      (raw : String) (w : W) (r : Result String) → Answers (patch_with c u h marshal turns raw w r)
  unfolding patch_with
  patch_with-Answers raw w (err er) = (_, w, refl)
  patch_with-Answers raw w (ok new) = (_, w, refl)

  respond-Answers :
      (raw : String) (o : Option (Result (Fields × Bool) × W))
      → Answers o
      → Answers (respond c u h marshal turns raw o)
  unfolding respond
  respond-Answers raw none (r, w, found) = cc
  respond-Answers raw (some (err er, w)) _ = (_, w, refl)
  respond-Answers raw (some (ok (obj, false), w)) _ = (_, w, refl)
  respond-Answers raw (some (ok (obj, true), w)) _ = patch_with-Answers raw w (marshal obj)

  after_placement-Answers :
      (raw : String) (obj spec : Fields) (items : List Json) (w : W) (pl : Placement)
      → Answers (after_placement c u h marshal turns raw obj spec items w pl)
  unfolding after_placement assign_ports
  after_placement-Answers raw obj spec items w unnamed = (_, w, refl)
  after_placement-Answers raw obj spec items w crowded = (_, w, refl)
  after_placement-Answers raw obj spec items w stays =
      respond-Answers raw _ (allocate_listeners-Answers _ _ _ obj false w)
  after_placement-Answers raw obj spec items w (moves gw) =
      respond-Answers raw _ (allocate_listeners-Answers _ _ _ (set_parent gw spec obj) true w)

  with_items-Answers :
      (raw : String) (obj spec : Fields) (r : Result (List Json) × W)
      → Answers (with_items c u h marshal turns raw obj spec r)
  unfolding with_items
  with_items-Answers raw obj spec (err er, w) = (_, w, refl)
  with_items-Answers raw obj spec (ok items, w) = after_placement-Answers raw obj spec items w _

  handle_object-Answers :
      (raw : String) (obj : Fields) (spec : Option Fields) (w : W)
      → Answers (handle_object c u h marshal turns raw obj spec w)
  unfolding handle_object
  handle_object-Answers raw obj none w = (_, w, refl)
  handle_object-Answers raw obj (some spec) w = with_items-Answers raw obj spec (c.list_sets w)

  handle_raw-Answers :
      (raw : String) (r : Result Fields) (w : W) → Answers (handle_raw c u h marshal turns raw r w)
  unfolding handle_raw
  handle_raw-Answers raw (err er) w = (_, w, refl)
  handle_raw-Answers raw (ok obj) w = handle_object-Answers raw obj (as_fields (get obj "spec")) w

  -- Under a range of positive ports whose end plus one is an int32, the handler answers every
  -- request, if AllocatePort has a turn for each port of the range and one more.
  pub handle-Answers :
      (unmarshal : String → Result Fields) (operation raw : String) (w : W)
      → Answers (handle c u h marshal turns unmarshal operation raw w)
  unfolding handle
  handle-Answers unmarshal operation raw w = elim (Bool-cases (str_eq operation "CREATE")) [
    | inl creates ↦ rw creates (handle_raw-Answers raw (unmarshal raw) w)
    | inr other ↦ rw other (allowed, w, refl)
  ]
