-- ===== src/TcpGateway/Handler/Frame.antt =====
-- What the handler of pkg/controller/webhooks/tcpgateway/handler.go leaves of an object as it was.
use appcat.Common.{
  false, String, str_eq, eq_iff, eq_refl, some, ◌≡◌, refl, ap, ◌∙◌, inl, inr, Bool-cases,
}
use appcat.TcpGateway.Sharding.{GatewayKey}
use appcat.TcpGateway.Objects.{Json, text, object, Fields, no_fields, field}
use appcat.TcpGateway.Handler.{
  get, set, map_or_nil, text_of, allocated_annotation, parent_key, set_parent, set_port,
}

pub get-set_same : (n : String) (v : Json) (m : Fields) → get (set n v m) n ≡ some v
unfolding get set
get-set_same n v no_fields = rw (eq_refl n) refl
get-set_same n v (field k u m) = elim (Bool-cases (str_eq k n)) [
  | inl same ↦ rw same (rw same refl)
  | inr differs ↦ rw differs (rw differs (get-set_same n v m))
]

pub get-set_other :
    (n k : String) (v : Json) (m : Fields) → str_eq n k ≡ false → get (set n v m) k ≡ get m k
unfolding get set
get-set_other n k v no_fields differs = rw differs refl
get-set_other n k v (field j u m) differs = elim (Bool-cases (str_eq j n)) [
  | inl same ↦
      let here : j ≡ n = (eq_iff j n).0 same in
      let apart : str_eq j k ≡ false = ap (λ x. str_eq x k) here ∙ differs in
      rw same (rw apart refl)
  | inr other ↦ rw other (elim (Bool-cases (str_eq j k)) [
    | inl found ↦ rw found refl
    | inr missed ↦ rw missed (get-set_other n k v m differs)
  ])
]

-- The map under a name.
abbrev pub under : String → Fields → Fields
under name m = map_or_nil (get m name)

-- `m'` has the fields of `m`, but for the field `n`.
abbrev pub SameBut : String → Fields → Fields → Type 0
SameBut n m m' = (k : String) → str_eq n k ≡ false → get m' k ≡ get m k

-- The spec but for its parentRef, the metadata but for the annotations, the annotations but for the
-- allocated port, and all other fields are the same.
pub record Kept (obj obj' : Fields) : Type 0 where
  pub others :
      (k : String) → str_eq "spec" k ≡ false → str_eq "metadata" k ≡ false → get obj' k ≡ get obj k
  pub spec : SameBut "parentRef" (under "spec" obj) (under "spec" obj')
  pub metadata : SameBut "annotations" (under "metadata" obj) (under "metadata" obj')
  pub annotations :
      SameBut allocated_annotation
        (under "annotations" (under "metadata" obj))
        (under "annotations" (under "metadata" obj'))

pub Kept-refl : (obj : Fields) → Kept obj obj
Kept-refl obj = record {
  others = λ k a b. refl;
  spec = λ k a. refl;
  metadata = λ k a. refl;
  annotations = λ k a. refl;
}

pub Kept-trans : {a b d : Fields} → Kept a b → Kept b d → Kept a d
Kept-trans p q = record {
  others = λ k x y. q.others k x y ∙ p.others k x y;
  spec = λ k x. q.spec k x ∙ p.spec k x;
  metadata = λ k x. q.metadata k x ∙ p.metadata k x;
  annotations = λ k x. q.annotations k x ∙ p.annotations k x;
}

under-set : (n : String) (m inner : Fields) → under n (set n (object inner) m) ≡ inner
under-set n m inner = ap map_or_nil (get-set_same n (object inner) m)

pub set_parent-Kept :
    (gw : GatewayKey) (obj : Fields) → Kept obj (set_parent gw (under "spec" obj) obj)
unfolding set_parent
set_parent-Kept gw obj = record {
  others = λ k x y. get-set_other "spec" k _ obj x;
  spec = λ k x.
      ap (λ m. get m k) (under-set "spec" obj _)
      ∙ get-set_other "parentRef" k _ (under "spec" obj) x;
  metadata = λ k x. ap (λ j. get (map_or_nil j) k) (get-set_other "spec" "metadata" _ obj refl);
  annotations = λ k x.
      ap (λ j. get (under "annotations" (map_or_nil j)) k)
        (get-set_other "spec" "metadata" _ obj refl);
}

pub set_port-Kept : (port : String) (obj : Fields) → Kept obj (set_port port obj)
unfolding set_port
set_port-Kept port obj = record {
  others = λ k x y. get-set_other "metadata" k _ obj y;
  spec = λ k x. ap (λ j. get (map_or_nil j) k) (get-set_other "metadata" "spec" _ obj refl);
  metadata = λ k x.
      ap (λ m. get m k) (under-set "metadata" obj _)
      ∙ get-set_other "annotations" k _ (under "metadata" obj) x;
  annotations = λ k x.
      ap (λ m. get (under "annotations" m) k) (under-set "metadata" obj _)
      ∙ ap (λ m. get m k) (under-set "annotations" (under "metadata" obj) _)
      ∙ get-set_other allocated_annotation k _ (under "annotations" (under "metadata" obj)) x;
}

-- The annotation has the port that was written last.
pub set_port_written :
    (port : String) (obj : Fields)
    → get (under "annotations" (under "metadata" (set_port port obj))) allocated_annotation
      ≡ some (text port)
unfolding set_port
set_port_written port obj =
    ap (λ m. get (under "annotations" m) allocated_annotation) (under-set "metadata" obj _)
    ∙ ap (λ m. get m allocated_annotation) (under-set "annotations" (under "metadata" obj) _)
    ∙ get-set_same allocated_annotation (text port) (under "annotations" (under "metadata" obj))

-- The port goes to the metadata, so the gateway of the object stays.
pub parent-set_port :
    (port : String) (obj : Fields) → under "spec" (set_port port obj) ≡ under "spec" obj
unfolding set_port
parent-set_port port obj = ap map_or_nil (get-set_other "metadata" "spec" _ obj refl)

pub parent-set_parent :
    (gw : GatewayKey) (spec obj : Fields) → parent_key (under "spec" (set_parent gw spec obj)) ≡ gw
unfolding set_parent parent_key
parent-set_parent gw spec obj =
    ap parent_key (under-set "spec" obj _)
    ∙ ap from_parent (under-set "parentRef" spec _)
    ∙ ap (λ n. record { namespace = text_of n; name = text_of (get parent_ref "name") })
        (get-set_same "namespace" (text gw.namespace)
          (set "name" (text gw.name) (under "parentRef" spec)))
    ∙ ap (λ n. record { namespace = gw.namespace; name = text_of n })
        (get-set_other "namespace" "name" _ (set "name" (text gw.name) (under "parentRef" spec))
            refl
          ∙ get-set_same "name" (text gw.name) (under "parentRef" spec))
  where
    parent_ref : Fields
    parent_ref =
        set "namespace" (text gw.namespace) (set "name" (text gw.name) (under "parentRef" spec))

    from_parent : Fields → GatewayKey
    from_parent m = record {
      namespace = text_of (get m "namespace");
      name = text_of (get m "name");
    }
