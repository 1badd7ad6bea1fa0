-- ===== src/Webhooks/Deletion/Unmanaged.antt =====
-- The answers of pkg/controller/webhooks/unmanaged_protection.go.
use appcat.Common.{
  Bool, true, false, String, str_eq, Option, none, some, ◌≡◌, refl, sym, ap, ◌∙◌, subst, ◌↔◌, inl,
  inr, Bool-cases, ◌&&◌,
}
use appcat.Common.Results.{GroupVersionKind, Result, ok, err}
use appcat.Webhooks.Deletion.{
  Error, not_found, not_registered, invalid_object, unexpected_operation, other, Object, Client,
  CompositeInfo, is_deletion_protected, errored, check_managed_object, storage_overridden,
  unmanaged_response, and_protected, check_in_namespace, check_unmanaged_object, handle_old, handle,
  namespace_kind, Response, override_label, storage_override_label,
}
use appcat.Webhooks.Deletion.Holds.{
  is_denied, Holds, Fails, checked_lem, IsReleased, is_true_iff, protected_iff,
}
use mathlib.Core.Bool.{true≢false}
use text.Mathlib.Text.{starts_with}

-- The namespace releases its volumes, and the object is one.
abbrev pub ReleasesVolume : Object → Object → Type 0
ReleasesVolume obj ns =
    (starts_with obj.kind "PersistentVolume" ≡ true) × IsReleased storage_override_label ns

module _ {W : Type 0} (c : Client W) (control_plane : Option (Client W))
    (scheme : GroupVersionKind → Result Error Bool) where
  guarded_lem :
      (obj : Object) (x : (CompositeInfo × Option Error) × W)
      → (is_denied
            (unmanaged_response c control_plane scheme obj
              (and_protected c control_plane scheme obj x)).0
          ≡ true)
        ↔ ((x.0.1 ≡ none) × (x.0.0.exists ≡ true)) × (is_deletion_protected obj ≡ true)
  unfolding unmanaged_response and_protected
  guarded_lem obj ((found, some e), w') = (λ x. cc, λ ((x, y), z). cc)
  guarded_lem obj ((found, none), w') = elim (Bool-cases found.exists) [
    | inl there ↦ elim (Bool-cases (is_deletion_protected obj)) [
      | inl safe ↦ rw (there, safe) (λ x. ((refl, refl), refl), λ x. refl)
      | inr bare ↦ rw (there, bare) (λ x. cc, λ (x, y). cc)
    ]
    | inr gone ↦ rw gone (λ x. cc, λ ((x, y), z). cc)
  ]

  storage_overridden_iff :
      (obj ns : Object)
      → (storage_overridden c control_plane scheme obj ns ≡ true) ↔ ReleasesVolume obj ns
  unfolding storage_overridden
  storage_overridden_iff obj ns = elim (Bool-cases (starts_with obj.kind "PersistentVolume")) [
    | inl volume ↦ rw volume (λ h. (refl, (is_true_iff _).0 h), λ (_, h). (is_true_iff _).1 h)
    | inr no_volume ↦ rw no_volume (λ h. cc, λ (h, _). cc)
  ]

  -- The namespace of an object holds it back.
  pub record HeldByNamespace (obj : Object) (r : Result Error Object × W) : Type 0 where
    pub ns : Object
    pub there : r.0 ≡ ok ns
    pub storage_kept : ReleasesVolume obj ns → ⊥
    pub holds : Holds c control_plane scheme ns r.1
    pub safe : IsReleased override_label obj → ⊥

  same_object : (a b : Object) → ◌≡◌ {A = Result Error Object} (ok b) (ok a) → a ≡ b
  same_object a b e = cc

  refused : (obj : Object) (e : Error) (w : W) → HeldByNamespace obj (err e, w) → ⊥
  refused obj e w h = let clash = h.there in cc

  in_namespace_lem :
      (obj : Object) (r : Result Error Object × W)
      → (is_denied
            (unmanaged_response c control_plane scheme obj
              (check_in_namespace c control_plane scheme obj r)).0
          ≡ true)
        ↔ HeldByNamespace obj r
  unfolding unmanaged_response check_in_namespace
  in_namespace_lem obj (err not_found, w) = (λ x. cc, λ h. absurd (refused obj _ w h))
  in_namespace_lem obj (err not_registered, w) = (λ x. cc, λ h. absurd (refused obj _ w h))
  in_namespace_lem obj (err invalid_object, w) = (λ x. cc, λ h. absurd (refused obj _ w h))
  in_namespace_lem obj (err (unexpected_operation o), w) =
      (λ x. cc, λ h. absurd (refused obj _ w h))
  in_namespace_lem obj (err (other o), w) = (λ x. cc, λ h. absurd (refused obj _ w h))
  in_namespace_lem obj (ok ns, w) =
      elim (Bool-cases (storage_overridden c control_plane scheme obj ns)) [
        | inl overridden ↦ rw overridden (
          λ x. cc,
          λ h.
              let same : h.ns ≡ ns = same_object _ _ h.there in
              absurd (
                h.storage_kept (
                  (storage_overridden_iff obj h.ns).0
                    (ap (storage_overridden c control_plane scheme obj) same ∙ overridden))),
        )
        | inr kept ↦
            let (there, back) =
              guarded_lem obj (check_managed_object c control_plane scheme ns w) in
            let (checked, fails) = checked_lem c control_plane scheme ns w in
            rw kept (
              λ x.
                  let (answer, safe) = there x in
                  record {
                    ns = ns;
                    there = refl;
                    storage_kept = λ released.
                        absurd
                          (true≢false (sym ((storage_overridden_iff obj ns).1 released) ∙ kept));
                    holds = checked.0 answer;
                    safe = (protected_iff obj).0 safe;
                  },
              λ h.
                  let same : h.ns ≡ ns = same_object _ _ h.there in
                  back (
                    checked.1 (subst (λ n. Holds c control_plane scheme n w) same h.holds),
                    (protected_iff obj).1 h.safe,
                  ),
            )
      ]

  -- What ends a request with an error: the namespace cannot be read for another reason than that it is
  -- gone, or its owner cannot, where the namespace does not release the volume.
  pub data FailsInNamespace (obj : Object) (r : Result Error Object × W) (e : Error) : Type 0 where
    no_namespace : r.0 ≡ err e → (e ≡ not_found → ⊥) → FailsInNamespace obj r e
    no_owner :
        (ns : Object)
        → r.0 ≡ ok ns
        → (ReleasesVolume obj ns → ⊥)
        → Fails c control_plane scheme ns r.1 e
        → FailsInNamespace obj r e

  guarded_error :
      (obj : Object) (x : (CompositeInfo × Option Error) × W) (e : Error)
      → ((unmanaged_response c control_plane scheme obj
            (and_protected c control_plane scheme obj x)).0
          ≡ errored e)
        ↔ (x.0.1 ≡ some e)
  unfolding unmanaged_response and_protected
  guarded_error obj ((found, some e'), w') e = (λ h. cc, λ h. cc)
  guarded_error obj ((found, none), w') e =
      elim (Bool-cases (found.exists && is_deletion_protected obj)) [
        | inl held ↦ rw held (λ h. cc, λ h. cc)
        | inr free ↦ rw free (λ h. cc, λ h. cc)
      ]

  no_failure : (obj : Object) (w : W) (e : Error) → FailsInNamespace obj (err not_found, w) e → ⊥
  no_failure obj w e (no_namespace same differs) = let this : e ≡ not_found = cc in differs this
  no_failure obj w e (no_owner ns same kept fails) = cc

  unread :
      (obj : Object) (x e : Error) (w : W)
      → (x ≡ not_found → ⊥)
      → (◌≡◌ {A = Response} (errored x) (errored e)) ↔ FailsInNamespace obj (err x, w) e
  unread obj x e w differs = (
    λ h. let this : x ≡ e = cc in no_namespace (ap err this) (λ gone. differs (this ∙ gone)),
    λ h. elim h [
      | no_namespace same _ ↦ let this : x ≡ e = cc in ap errored this
      | no_owner ns same kept fails ↦ cc
    ],
  )

  in_namespace_error :
      (obj : Object) (r : Result Error Object × W) (e : Error)
      → ((unmanaged_response c control_plane scheme obj
            (check_in_namespace c control_plane scheme obj r)).0
          ≡ errored e)
        ↔ FailsInNamespace obj r e
  unfolding unmanaged_response check_in_namespace
  in_namespace_error obj (err not_found, w) e = (λ h. cc, λ h. absurd (no_failure obj w e h))
  in_namespace_error obj (err not_registered, w) e = unread obj _ e w (λ h. cc)
  in_namespace_error obj (err invalid_object, w) e = unread obj _ e w (λ h. cc)
  in_namespace_error obj (err (unexpected_operation o), w) e = unread obj _ e w (λ h. cc)
  in_namespace_error obj (err (other o), w) e = unread obj _ e w (λ h. cc)
  in_namespace_error obj (ok ns, w) e =
      elim (Bool-cases (storage_overridden c control_plane scheme obj ns)) [
        | inl overridden ↦
            rw overridden (λ h. cc, λ h. absurd (released_no_failure ns w overridden h))
        | inr kept ↦
            let (there, back) =
              guarded_error obj (check_managed_object c control_plane scheme ns w) e in
            let (checked, back') = (checked_lem c control_plane scheme ns w).1 e in
            rw kept (
              λ h.
                  no_owner ns refl
                    (λ released.
                      absurd (true≢false (sym ((storage_overridden_iff obj ns).1 released) ∙ kept)))
                    (checked (there h)),
              λ h. elim h [
                | no_namespace same differs ↦ cc
                | no_owner ns' same _ fails ↦
                    let this : ns' ≡ ns = same_object _ _ same in
                    back (back' (subst (λ n. Fails c control_plane scheme n w e) this fails))
              ],
            )
      ]
    where
      released_no_failure :
          (ns : Object) (w : W)
          → storage_overridden c control_plane scheme obj ns ≡ true
          → FailsInNamespace obj (ok ns, w) e
          → ⊥
      released_no_failure ns w overridden (no_namespace same differs) = cc
      released_no_failure ns w overridden (no_owner ns' same kept fails) =
          let this : ns' ≡ ns = same_object _ _ same in
          kept (
            (storage_overridden_iff obj ns').0
              (ap (storage_overridden c control_plane scheme obj) this ∙ overridden))

  -- The webhook refuses the deletion of an object that it can read exactly if the object has no
  -- override, its namespace is there and held back like a managed object, and the namespace does not
  -- release its volumes while the object is one. It answers with an error, which denies the deletion
  -- too, exactly if the namespace or its owner cannot be read. An operation other than a deletion is an
  -- error.
  pub handle_lem :
      (unmarshal : String → Result Error Object) (raw : String) (obj : Object) (w : W)
      → unmarshal raw ≡ ok obj
      → ((is_denied (handle c control_plane scheme unmarshal "DELETE" raw w).0 ≡ true)
          ↔ HeldByNamespace obj (c.get namespace_kind obj.namespace w))
        × ((e : Error)
            → ((handle c control_plane scheme unmarshal "DELETE" raw w).0 ≡ errored e)
              ↔ FailsInNamespace obj (c.get namespace_kind obj.namespace w) e)
        × ((operation : String)
            → str_eq operation "DELETE" ≡ false
            → handle c control_plane scheme unmarshal operation raw w
              ≡ (errored (unexpected_operation operation), w))
  unfolding handle handle_old check_unmanaged_object
  handle_lem unmarshal raw obj w readable = (
    rw readable (in_namespace_lem obj (c.get namespace_kind obj.namespace w)),
    λ e. rw readable (in_namespace_error obj (c.get namespace_kind obj.namespace w) e),
    λ operation differs. rw differs refl,
  )
