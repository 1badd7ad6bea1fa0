-- ===== src/Maintenance/Release/Update.antt =====
-- What ReleaseLatest of pkg/maintenance/release/release.go does to a claim or a composite.
use appcat.Common.{
  ℕ, true, false, String, str_eq, List, [], ◌∷◌, All, Option, none, some, ◌≡◌, refl, ap, sym, ◌∙◌,
  arith, ◌⊎◌, inl, inr, Bool-cases, Option-cases, if◌then◌else◌,
}
use appcat.Common.Results.{ok, err}
use appcat.Maintenance.Semver.{Version, Semver, IsOrder}
use appcat.Maintenance.Release.{
  not_found, CompositionObject, VersionHandler, Client, get_claim_gvk, get_composite_gvk,
  parse_revision_label, get_current_revision_label, should_skip_revision_update,
  apply_update_policy, set_auto_policy, has_auto_update_label, next_object,
  get_latest_revision_label, update_object, update_claim, update_composite, is_not_found,
  or_composite, release_revision, release_enabled, release_latest,
}

-- What the object becomes: nothing changes if its revision is at least as high.
abbrev pub released : Semver → String → CompositionObject → CompositionObject
released sv revision obj =
    if has_auto_update_label obj
    then set_auto_policy obj
    else (if should_skip_revision_update sv obj revision
        then obj
        else apply_update_policy obj revision)

-- An API server that holds one claim and one composite, while nobody else writes. `claim` answers
-- `none` if there is no claim.
pub record Holds {W : Type 0} (c : Client W) (vh : VersionHandler)
    (claim : W → Option CompositionObject) (composite : W → CompositionObject) : Type 0 where
  pub get_claim :
      (w : W) {obj : CompositionObject}
      → claim w ≡ some obj
      → c.get (get_claim_gvk vh) vh.claim_namespace vh.claim_name w ≡ (ok obj, w)
  pub claim_missing :
      (w : W)
      → claim w ≡ none
      → c.get (get_claim_gvk vh) vh.claim_namespace vh.claim_name w ≡ (err not_found, w)
  pub get_composite :
      (w : W) → c.get (get_composite_gvk vh) "" vh.composite_name w ≡ (ok (composite w), w)
  pub put_claim :
      (obj : CompositionObject) (w : W) {old : CompositionObject}
      → claim w ≡ some old
      → (w' : W) × (c.update (get_claim_gvk vh) vh.claim_namespace vh.claim_name obj w
          ≡ (ok tt, w'))
        × (claim w' ≡ some obj)
        × (composite w' ≡ composite w)
  pub put_composite :
      (obj : CompositionObject) (w : W)
      → (w' : W) × (c.update (get_composite_gvk vh) "" vh.composite_name obj w ≡ (ok tt, w'))
        × (composite w' ≡ obj)
        × (claim w' ≡ claim w)

next_object-cases :
    (sv : Semver) (revision : String) (obj : CompositionObject)
    → ((next_object sv true revision obj ≡ none) × (released sv revision obj ≡ obj))
      ⊎ (next_object sv true revision obj ≡ some (released sv revision obj))
unfolding next_object
next_object-cases sv revision obj = elim (Bool-cases (has_auto_update_label obj)) [
  | inl auto ↦ inr (rw auto refl)
  | inr pinned ↦ elim (Bool-cases (should_skip_revision_update sv obj revision)) [
    | inl skipped ↦ inl (rw (pinned, skipped) refl, rw (pinned, skipped) refl)
    | inr higher ↦ inr (rw (pinned, higher) refl)
  ]
]

module _ {W : Type 0} {c : Client W} (sv : Semver) {vh : VersionHandler}
    {claim : W → Option CompositionObject} {composite : W → CompositionObject}
    (holds : Holds c vh claim composite) where
  update_claim_lem :
      (revision : String) (obj : CompositionObject) (w : W)
      → claim w ≡ some obj
      → (w' : W) × (update_claim c sv vh revision true w ≡ (ok tt, w'))
        × (claim w' ≡ some (released sv revision obj))
        × (composite w' ≡ composite w)
  unfolding update_claim update_object
  update_claim_lem revision obj w there = elim (next_object-cases sv revision obj) [
    | inl (skipped, same) ↦ (w, rw (holds.get_claim w there, skipped) refl, rw same there, refl)
    | inr sends ↦
        let (w', done, stored, kept) = holds.put_claim (released sv revision obj) w there in
        (w', rw (holds.get_claim w there, sends) done, stored, kept)
  ]

  update_composite_lem :
      (revision : String) (w : W)
      → (w' : W) × (update_composite c sv vh revision true w ≡ (ok tt, w'))
        × (composite w' ≡ released sv revision (composite w))
        × (claim w' ≡ claim w)
  unfolding update_composite update_object
  update_composite_lem revision w = elim (next_object-cases sv revision (composite w)) [
    | inl (skipped, same) ↦ (w, rw (holds.get_composite w, skipped) refl, sym same, refl)
    | inr sends ↦
        let (w', done, stored, kept) = holds.put_composite (released sv revision (composite w)) w in
        (w', rw (holds.get_composite w, sends) done, stored, kept)
  ]

  -- What a release leaves: the claim is moved if there is one, and else the composite.
  abbrev pub Moved : String → W → W → Type 0
  Moved revision before after =
      ((obj : CompositionObject) × (claim before ≡ some obj)
        × (claim after ≡ some (released sv revision obj))
        × (composite after ≡ composite before))
      ⊎ ((claim before ≡ none)
          × (claim after ≡ none)
          × (composite after ≡ released sv revision (composite before)))

  update_claim-missing :
      (revision : String) (w : W)
      → claim w ≡ none
      → update_claim c sv vh revision true w ≡ (err not_found, w)
  unfolding update_claim
  update_claim-missing revision w missing = rw (holds.claim_missing w missing) refl

  release_revision_lem :
      (revision : String) (w : W)
      → (w' : W) × (release_revision c sv vh revision true w ≡ (ok tt, w')) × Moved revision w w'
  unfolding release_revision or_composite is_not_found
  release_revision_lem revision w = elim (Option-cases (claim w)) [
    | inr (obj, there) ↦
        let (w', done, stored, kept) = update_claim_lem revision obj w there in
        (w', ap (or_composite c sv vh revision true) done, inl (obj, there, stored, kept))
    | inl missing ↦
        let (w', done, stored, kept) = update_composite_lem revision w in
        (
          w',
          ap (or_composite c sv vh revision true) (update_claim-missing revision w missing) ∙ done,
          inr (missing, kept ∙ missing, stored),
        )
  ]

  -- If the API holds a claim or else a composite, and the latest revision has a label, then
  -- ReleaseLatest succeeds: the claim, or the composite if there is no claim, is moved as `released`
  -- says, and the other is left alone.
  pub release_latest_lem :
      (min_age : ℕ) (revision : String) (w w₁ : W)
      → get_latest_revision_label c sv vh min_age w ≡ (ok revision, w₁)
      → str_eq revision "" ≡ false
      → (w' : W) × (release_latest c sv vh true min_age w ≡ (ok tt, w')) × Moved revision w₁ w'
  unfolding release_latest release_enabled
  release_latest_lem min_age revision w w₁ found named =
      let (w', done, moved) = release_revision_lem revision w₁ in
      (w', rw (found, named) done, moved)

-- The object is on a fixed revision, whose label is the version `v`.
abbrev pub IsPinned : Semver → Version → CompositionObject → Type 0
IsPinned sv v obj =
    (has_auto_update_label obj ≡ false)
    × (parse_revision_label sv (get_current_revision_label obj) ≡ some v)

-- Releases one after the other, each to a revision with the given label.
abbrev pub release_all : Semver → List String → CompositionObject → CompositionObject
release_all sv [] obj = obj
release_all sv (revision ∷ revisions) obj = release_all sv revisions (released sv revision obj)

abbrev pub IsVersion : Semver → String → Type 0
IsVersion sv label = (v : Version) × (parse_revision_label sv label ≡ some v)

parse_revision_label-nonempty :
    (sv : Semver) (label : String) (v : Version)
    → parse_revision_label sv label ≡ some v
    → str_eq label "" ≡ false
unfolding parse_revision_label
parse_revision_label-nonempty sv label v parses = elim (Bool-cases (str_eq label "")) [
  | inl empty ↦ let clash : none ≡ some v = rw empty at parses in cc
  | inr named ↦ named
]

should_skip-lte :
    (sv : Semver) (revision : String) (obj : CompositionObject) (v t : Version)
    → parse_revision_label sv (get_current_revision_label obj) ≡ some v
    → parse_revision_label sv revision ≡ some t
    → should_skip_revision_update sv obj revision ≡ sv.lte t v
unfolding should_skip_revision_update
should_skip-lte sv revision obj v t current target =
    rw
      (parse_revision_label-nonempty sv (get_current_revision_label obj) v current, current, target)
      refl

apply_update_policy-IsPinned :
    (sv : Semver) (revision : String) (obj : CompositionObject) (t : Version)
    → has_auto_update_label obj ≡ false
    → parse_revision_label sv revision ≡ some t
    → IsPinned sv t (apply_update_policy obj revision)
unfolding apply_update_policy has_auto_update_label get_current_revision_label
apply_update_policy-IsPinned sv revision obj t manual target = (manual, target)

-- A release to a version leaves the object on a version that is at least as high.
released-IsPinned :
    (sv : Semver) (order : IsOrder sv) (revision : String) (obj : CompositionObject) (v t : Version)
    → IsPinned sv v obj
    → parse_revision_label sv revision ≡ some t
    → (v' : Version) × IsPinned sv v' (released sv revision obj) × (sv.lte v v' ≡ true)
released-IsPinned sv order revision obj v t (manual, current) target =
    let skips = should_skip-lte sv revision obj v t current target in
    elim (Bool-cases (sv.lte t v)) [
      | inl low ↦ (v, rw (manual, skips, low) (manual, current), ground (arith, order.total v v))
      | inr high ↦ (
        t,
        rw (manual, skips, high) (apply_update_policy-IsPinned sv revision obj t manual target),
        ground (arith, order.total v t),
      )
    ]

-- If the versions are in a total order and every release is to a version, then any sequence of
-- releases leaves an object that is on a fixed revision on one that is at least as high.
pub release_all-IsPinned :
    (sv : Semver) (order : IsOrder sv) (revisions : List String) (obj : CompositionObject)
    (v : Version)
    → All (IsVersion sv) revisions
    → IsPinned sv v obj
    → (v' : Version) × IsPinned sv v' (release_all sv revisions obj) × (sv.lte v v' ≡ true)
release_all-IsPinned sv order [] obj v versions pinned =
    (v, pinned, ground (arith, order.total v v))
release_all-IsPinned sv order (revision ∷ revisions) obj v ((t, target), versions) pinned =
    let (v₁, pinned₁, up₁) = released-IsPinned sv order revision obj v t pinned target in
    let (v₂, pinned₂, up₂) =
      release_all-IsPinned sv order revisions (released sv revision obj) v₁ versions pinned₁ in
    (v₂, pinned₂, order.trans v v₁ v₂ up₁ up₂)
