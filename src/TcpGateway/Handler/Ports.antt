-- ===== src/TcpGateway/Handler/Ports.antt =====
-- What the loop over the listeners of pkg/controller/webhooks/tcpgateway/handler.go does to an object.
use appcat.Common.{
  ℕ, Bool, true, false, String, List, [], ◌∷◌, Option, none, some, ◌≡◌, refl, sym, ap, ◌∙◌, subst,
  ◌⊎◌, inl, inr, Bool-cases,
}
use appcat.Common.Int.{ℤ}
use appcat.TcpGateway.Objects.{Json, Fields, Unstructured}
use appcat.TcpGateway.Cluster.{Result, ok, err, Cluster}
use appcat.TcpGateway.Allocator.{allocate_port}
use appcat.TcpGateway.Handler.{
  XListenerSetHandler, Response, allowed, errored, patched, set_port, needs_port, after_port,
  patch_with, allocate_listeners, respond,
}
use appcat.TcpGateway.Handler.Frame.{
  under, Kept, Kept-refl, Kept-trans, set_port-Kept, parent-set_port,
}

-- What the ports leave of an object: its spec is the same, and it is the same as a whole if it is not
-- modified.
pub record PortsOnly (obj : Fields) (before : Bool) (obj' : Fields) (after : Bool) : Type 0 where
  pub kept : Kept obj obj'
  pub spec : under "spec" obj' ≡ under "spec" obj
  pub unmodified : after ≡ false → (obj' ≡ obj) × (before ≡ false)

module _ {W : Type 0} (c : Cluster W) (u : Unstructured) (h : XListenerSetHandler)
    (marshal : Fields → Result String) (fuel : ℕ) where
  abbrev pub PortsOf : Fields → Bool → Option (Result (Fields × Bool) × W) → Type 0
  PortsOf obj m o =
      (obj' : Fields) (m' : Bool) (w' : W) → o ≡ some (ok (obj', m'), w') → PortsOnly obj m obj' m'

  after_port_lem :
      (rest : Fields → W → Option (Result (Fields × Bool) × W)) (obj : Fields) (m : Bool)
      (r : Option (Result ℤ × W))
      → ((obj₁ : Fields) (w₁ : W) → PortsOf obj₁ true (rest obj₁ w₁))
      → PortsOf obj m (after_port c u h marshal fuel rest obj r)
  unfolding after_port
  after_port_lem rest obj m none further obj' m' w' found = cc
  after_port_lem rest obj m (some (err e, w₀)) further obj' m' w' found = cc
  after_port_lem rest obj m (some (ok port, w₀)) further obj' m' w' found =
      let after = further (set_port (c.format_port port) obj) w₀ obj' m' w' found in
      record {
        kept = Kept-trans (set_port-Kept (c.format_port port) obj) after.kept;
        spec = after.spec ∙ parent-set_port (c.format_port port) obj;
        unmodified = λ off. let (_, clash) = after.unmodified off in cc;
      }

  pub allocate_listeners_lem :
      (used : List ℤ) (holder : String) (listeners : List Json) (obj : Fields) (m : Bool) (w : W)
      → PortsOf obj m (allocate_listeners c u h marshal fuel used holder listeners (obj, m) w)
  unfolding allocate_listeners
  allocate_listeners_lem used holder [] obj m w = λ obj' m' w' found.
      let same : obj ≡ obj' = cc in
      let flag : m ≡ m' = cc in
      record {
        kept = subst (Kept obj) same (Kept-refl obj);
        spec = ap (under "spec") (sym same);
        unmodified = λ off. (sym same, flag ∙ off);
      }
  allocate_listeners_lem used holder (l ∷ listeners) obj m w =
      elim (Bool-cases (needs_port c u h marshal fuel l)) [
        | inr has ↦
            rw (has, allocate_listeners) (allocate_listeners_lem used holder listeners obj m w)
        | inl needs ↦
            rw (needs, allocate_listeners)
              (after_port_lem
                (λ obj' w'.
                  allocate_listeners c u h marshal fuel used holder listeners (obj', true) w')
                obj m (allocate_port c h.allocator used h.lease_ns holder fuel w)
                (λ obj₁ w₁. allocate_listeners_lem used holder listeners obj₁ true w₁))
      ]

  -- What is known of an answer to the object after the ports.
  abbrev pub Responds : String → Fields → Bool → Response → Type 0
  Responds raw obj m resp =
      (obj' : Fields) × (m' : Bool) × PortsOnly obj m obj' m'
      × (((resp ≡ allowed) × (m' ≡ false))
          ⊎ ((new : String) × (resp ≡ patched raw new) × (marshal obj' ≡ ok new)))

  -- An answer that lets the set in.
  abbrev pub LetsIn : String → Response → Type 0
  LetsIn raw resp = (resp ≡ allowed) ⊎ ((new : String) × (resp ≡ patched raw new))

  patch_with_lem :
      (raw : String) (obj : Fields) (m : Bool) (obj' : Fields) (w : W) (r : Result String)
      (resp : Response) (w' : W)
      → PortsOnly obj m obj' true
      → marshal obj' ≡ r
      → patch_with c u h marshal fuel raw w r ≡ some (resp, w')
      → LetsIn raw resp
      → Responds raw obj m resp
  unfolding patch_with
  patch_with_lem raw obj m obj' w (err e) resp w' ports at found admitted =
      let is_error : errored 500 e ≡ resp = cc in elim admitted [ inl x ↦ cc | inr (new, x) ↦ cc ]
  patch_with_lem raw obj m obj' w (ok new) resp w' ports at found admitted =
      let same : resp ≡ patched raw new = cc in (obj', true, ports, inr (new, same, at))

  pub respond_lem :
      (raw : String) (obj : Fields) (m : Bool) (o : Option (Result (Fields × Bool) × W))
      (resp : Response) (w' : W)
      → PortsOf obj m o
      → respond c u h marshal fuel raw o ≡ some (resp, w')
      → LetsIn raw resp
      → Responds raw obj m resp
  unfolding respond
  respond_lem raw obj m none resp w' ports answer admitted = cc
  respond_lem raw obj m (some (err e, w)) resp w' ports answer admitted =
      let is_error : errored 500 e ≡ resp = cc in elim admitted [ inl x ↦ cc | inr (new, x) ↦ cc ]
  respond_lem raw obj m (some (ok (obj', false), w)) resp w' ports answer admitted =
      let same : resp ≡ allowed = cc in (obj', false, ports obj' false w refl, inl (same, refl))
  respond_lem raw obj m (some (ok (obj', true), w)) resp w' ports answer admitted =
      patch_with_lem raw obj m obj' w (marshal obj') resp w' (ports obj' true w refl) refl answer
        admitted
