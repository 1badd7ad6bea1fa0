-- ===== src/TcpGateway/Objects/Capacity.antt =====
-- Admissions of XListenerSets one after the other: SelectGateway of sharding.go over the counts that
-- extractListenerCounts of allocator.go makes (pkg/controller/webhooks/tcpgateway).
use appcat.Common.{
  ℕ, ◌+◌, ◌≤◌, Bool, true, false, str_eq, List, [], ◌∷◌, some, length, All, ◌≡◌, refl, arith, ◌⊎◌,
  inl, inr, Bool-cases, Option-cases, sym, subst, ◌∙◌, All-mono,
}
use appcat.TcpGateway.Sharding.{GatewayKey, GatewaySharding, selected, key_eq, select_gateway}
use appcat.TcpGateway.Sharding.Selection.{select_gateway_lem, Justified, key_eq-path}
use appcat.TcpGateway.Objects.{
  Json, Unstructured, listeners_path, extract_gateway_key, add_count, count_item,
  extract_listener_counts,
}

abbrev pub no_counts : GatewayKey → ℕ
no_counts key = 0

count_item-add :
    (u : Unstructured) (item : Json) (counts : GatewayKey → ℕ) (key : GatewayKey)
    → count_item u item counts key ≡ counts key + count_item u item no_counts key
unfolding count_item add_count
count_item-add u item counts key = elim (Option-cases (u.nested_slice item listeners_path)) [
  | inl missing ↦ rw missing (ground arith)
  | inr (listeners, found) ↦ rw found (ground arith)
]

extract-add :
    (u : Unstructured) (items : List Json) (counts : GatewayKey → ℕ) (key : GatewayKey)
    → extract_listener_counts u items counts key
      ≡ counts key + extract_listener_counts u items no_counts key
unfolding extract_listener_counts
extract-add u [] counts key = omega arith
extract-add u (item ∷ items) counts key = omega (
  arith,
  extract-add u items (count_item u item counts) key,
  extract-add u items (count_item u item no_counts) key,
  count_item-add u item counts key,
)

-- No configured gateway has more listeners than its capacity.
abbrev pub WithinCapacity : Unstructured → GatewaySharding → List Json → Type 0
WithinCapacity u gs items =
    All (λ gw. extract_listener_counts u items no_counts gw ≤ gs.capacity) gs.gateways

count_item-placed :
    (u : Unstructured) (obj : Json) (listeners : List Json) (key : GatewayKey)
    → u.nested_slice obj listeners_path ≡ some listeners
    → (count_item u obj no_counts key ≡ 0)
      ⊎ ((key_eq (extract_gateway_key u obj) key ≡ true)
          × (count_item u obj no_counts key ≡ length listeners))
unfolding count_item add_count
count_item-placed u obj listeners key found =
    elim (Bool-cases (str_eq (extract_gateway_key u obj).name "")) [
      | inl nameless ↦ inl (rw nameless refl)
      | inr named ↦ elim (Bool-cases (key_eq (extract_gateway_key u obj) key)) [
        | inl same ↦ inr (same, rw (named, found, same) (omega arith))
        | inr other ↦ inl (rw (named, found, other) refl)
      ]
    ]

selected-fits :
    (gs : GatewaySharding) (current gw : GatewayKey) (n : ℕ) (counts : GatewayKey → ℕ)
    (allowed : List GatewayKey) (changed : Bool)
    → Justified gs current n counts allowed (selected gw changed)
    → counts gw + n ≤ gs.capacity
selected-fits gs current gw n counts allowed false h = h.3
selected-fits gs current gw n counts allowed true (_, _, _, (_, fits, _)) = fits

-- If no configured gateway has more listeners than its capacity, and a set is placed where
-- SelectGateway puts it over the counts of the sets that exist, then no configured gateway has more
-- listeners than its capacity once the set exists too.
pub select_gateway-WithinCapacity :
    (u : Unstructured) (gs : GatewaySharding) (items : List Json) (current : GatewayKey)
    (allowed : List GatewayKey) (obj : Json) (listeners : List Json) (gw : GatewayKey)
    (changed : Bool)
    → WithinCapacity u gs items
    → select_gateway gs current
        (length listeners)
        (extract_listener_counts u items no_counts)
        allowed
      ≡ selected gw changed
    → extract_gateway_key u obj ≡ gw
    → u.nested_slice obj listeners_path ≡ some listeners
    → WithinCapacity u gs (obj ∷ items)
unfolding extract_listener_counts
select_gateway-WithinCapacity u gs items current allowed obj listeners gw changed within chosen
      placed found =
    All-mono _ _
      (λ key low. elim (count_item-placed u obj listeners key found) [
        | inl none_there ↦ omega (arith, extract-add u items (count_item u obj no_counts) key)
        | inr (same, placed_there) ↦
            let here : gw ≡ key = sym placed ∙ key_eq-path (extract_gateway_key u obj) key same in
            let counts = extract_listener_counts u items no_counts in
            let n = length listeners in
            let justified : Justified gs current n counts allowed (selected gw changed) =
              subst (Justified gs current n counts allowed) chosen
                (select_gateway_lem gs current n counts allowed) in
            let room : counts key + n ≤ gs.capacity =
              subst (λ k. counts k + n ≤ gs.capacity) here
                (selected-fits gs current gw n counts allowed changed justified) in
            omega (arith, room, placed_there, extract-add u items (count_item u obj no_counts) key)
      ])
      gs.gateways within
