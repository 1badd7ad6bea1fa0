-- ===== src/Webhooks/Deletion/Holds.antt =====
-- Which managed objects the protection of pkg/controller/webhooks/deletionprotection.go holds back.
use appcat.Common.{
  Bool, true, false, String, str_eq, eq_iff, List, [], ◌∷◌, any, Option, none, some, ◌≡◌, refl, sym,
  ap, ◌∙◌, subst, ◌↔◌, ◌⊎◌, inl, inr, Bool-cases, Option-cases, arith,
}
use mathlib.Core.Option.{some-injective}
use mathlib.Core.Bool.{true≢false}
use appcat.Common.Results.{GroupVersionKind, Result, ok, err, lookup, is_true}
use appcat.Webhooks.Deletion.{
  Error, not_found, not_registered, invalid_object, unexpected_operation, other, Object, Client,
  override_label, owner_composite_label, owner_kind_label, owner_version_label, owner_group_label,
  CompositeInfo, is_deletion_protected, label, info, label_not_set, unless_deleted, owner_gvk,
  Response, allowed, denied, errored, cp_client, read_composite, find_composite,
  check_managed_object,
}

abbrev pub owner_labels : List String
owner_labels =
    owner_composite_label ∷ owner_kind_label ∷ owner_version_label ∷ owner_group_label ∷ []

-- One of the labels that name the owner is missing or empty.
abbrev pub lacks_owner : Object → Bool
lacks_owner obj = any (λ key. str_eq (label key obj) "") owner_labels

abbrev pub is_denied : Response → Bool
is_denied allowed = false
is_denied (denied message names) = true
is_denied (errored e) = false

-- The label that releases an object is set to "true".
abbrev pub IsReleased : String → Object → Type 0
IsReleased key obj = lookup key obj.labels ≡ some "true"

pub is_true_iff : (o : Option String) → (is_true o ≡ true) ↔ (o ≡ some "true")
is_true_iff none = (λ h. cc, λ h. cc)
is_true_iff (some v) =
    (λ h. ap some ((eq_iff v "true").0 h), λ h. (eq_iff v "true").1 (some-injective _ _ h))

pub protected_iff :
    (obj : Object) → (is_deletion_protected obj ≡ true) ↔ (IsReleased override_label obj → ⊥)
unfolding is_deletion_protected
protected_iff obj = elim (Bool-cases (is_true (lookup override_label obj.labels))) [
  | inl set ↦ rw set (λ h. cc, λ h. absurd (h ((is_true_iff _).0 set)))
  | inr unset ↦
      rw unset
        (λ h released. absurd (true≢false (sym ((is_true_iff _).1 released) ∙ unset)), λ h. refl)
]

module _ {W : Type 0} (c : Client W) (control_plane : Option (Client W))
    (scheme : GroupVersionKind → Result Error Bool) where
  -- The search for the composite that the labels name.
  abbrev pub search : Object → W → Result Error Object × W
  search obj = (cp_client c control_plane).get (owner_gvk obj) (label owner_composite_label obj)

  -- The label that overrides the protection is not "true": nobody knows the owner, or the owner is there and is not being deleted.
  pub data Holds (obj : Object) (w : W) : Type 0 where
    unowned : lacks_owner obj ≡ true → (IsReleased override_label obj → ⊥) → Holds obj w
    owned :
        (comp : Object)
        → lacks_owner obj ≡ false
        → scheme (owner_gvk obj) ≡ ok true
        → (search obj w).0 ≡ ok comp
        → comp.deletion_timestamp ≡ none
        → (IsReleased override_label obj → ⊥)
        → Holds obj w

  -- The errors, which come with an object that has all the labels: its kind is not one of the known
  -- ones, or the search fails for a reason other than that there is no composite.
  pub data Fails (obj : Object) (w : W) : Error → Type 0 where
    unknown :
        lacks_owner obj ≡ false
        → scheme (owner_gvk obj) ≡ err not_registered
        → Fails obj w not_registered
    invalid :
        lacks_owner obj ≡ false → scheme (owner_gvk obj) ≡ ok false → Fails obj w invalid_object
    unread :
        (e : Error)
        → lacks_owner obj ≡ false
        → scheme (owner_gvk obj) ≡ ok true
        → (search obj w).0 ≡ err e
        → (e ≡ not_found → ⊥)
        → Fails obj w e

  lacking :
      (obj : Object) (w : W)
      → lacks_owner obj ≡ true
      → ((check_managed_object c control_plane scheme obj w).0.0.exists ≡ is_deletion_protected obj)
        × ((check_managed_object c control_plane scheme obj w).0.1 ≡ none)
  unfolding check_managed_object label_not_set
  lacking obj w lacks = ground arith

  having :
      (obj : Object) (w : W)
      → lacks_owner obj ≡ false
      → check_managed_object c control_plane scheme obj w
        ≡ find_composite c control_plane scheme obj
            (label owner_composite_label obj)
            (owner_gvk obj)
            (scheme (owner_gvk obj))
            w
  unfolding check_managed_object
  having obj w has = ground arith

  -- What an answer says of the object.
  pub data Told (obj : Object) (w : W) : CompositeInfo × Option Error → Type 0 where
    told_held :
        (found : CompositeInfo) → Holds obj w → found.exists ≡ true → Told obj w (found, none)
    told_free : (found : CompositeInfo) → found.exists ≡ false → Told obj w (found, none)
    told_error : (found : CompositeInfo) (e : Error) → Fails obj w e → Told obj w (found, some e)

  -- Only the error that there is no composite is forgiven.
  read_error :
      (obj : Object) (owner : String) (e : Error) (w : W)
      → ((e ≡ not_found)
          × ((read_composite c control_plane scheme obj owner (err e, w)).0
              ≡ (info false owner, none)))
        ⊎ ((e ≡ not_found → ⊥)
            × ((read_composite c control_plane scheme obj owner (err e, w)).0
                ≡ (info true owner, some e)))
  unfolding read_composite
  read_error obj owner not_found w = inl (refl, refl)
  read_error obj owner not_registered w = inr (λ e. cc, refl)
  read_error obj owner invalid_object w = inr (λ e. cc, refl)
  read_error obj owner (unexpected_operation o) w = inr (λ e. cc, refl)
  read_error obj owner (other o) w = inr (λ e. cc, refl)

  read_composite-Told :
      (obj : Object) (w : W) (r : Result Error Object × W)
      → lacks_owner obj ≡ false
      → scheme (owner_gvk obj) ≡ ok true
      → search obj w ≡ r
      → Told obj w (read_composite c control_plane scheme obj (label owner_composite_label obj) r).0
  unfolding read_composite unless_deleted
  read_composite-Told obj w (ok comp, w') has known found =
      elim (Option-cases comp.deletion_timestamp) [
        | inl live ↦
            subst
              (λ o. Told obj w (
                unless_deleted c control_plane scheme obj (label owner_composite_label obj) o,
                none,
              ))
              (sym live)
              (elim (Bool-cases (is_deletion_protected obj)) [
                | inl safe ↦
                    told_held _
                      (owned comp has known (ap (λ r. r.0) found) live ((protected_iff obj).0 safe))
                      safe
                | inr bare ↦ told_free _ bare
              ])
        | inr (t, deleted) ↦
            subst
              (λ o. Told obj w (
                unless_deleted c control_plane scheme obj (label owner_composite_label obj) o,
                none,
              ))
              (sym deleted) (told_free _ refl)
      ]
  read_composite-Told obj w (err e, w') has known found =
      elim (read_error obj (label owner_composite_label obj) e w') [
        | inl (missing, same) ↦ subst (Told obj w) (sym same) (told_free _ refl)
        | inr (differs, same) ↦
            subst (Told obj w) (sym same)
              (told_error _ e (unread e has known (ap (λ r. r.0) found) differs))
      ]

  find_composite-Told :
      (obj : Object) (w : W) (s : Result Error Bool)
      → lacks_owner obj ≡ false
      → scheme (owner_gvk obj) ≡ s
      → Told obj w
          (find_composite c control_plane scheme obj
            (label owner_composite_label obj)
            (owner_gvk obj)
            s
            w).0
  unfolding find_composite
  find_composite-Told obj w (err not_registered) has known = told_error _ _ (unknown has known)
  find_composite-Told obj w (err not_found) has known = told_free _ refl
  find_composite-Told obj w (err invalid_object) has known = told_free _ refl
  find_composite-Told obj w (err (unexpected_operation o)) has known = told_free _ refl
  find_composite-Told obj w (err (other o)) has known = told_free _ refl
  find_composite-Told obj w (ok false) has known = told_error _ _ (invalid has known)
  find_composite-Told obj w (ok true) has known =
      read_composite-Told obj w (search obj w) has known refl

  pub check_managed_object-Told :
      (obj : Object) (w : W) → Told obj w (check_managed_object c control_plane scheme obj w).0
  check_managed_object-Told obj w = elim (Bool-cases (lacks_owner obj)) [
    | inl lacks ↦
        let (protects, silent) = lacking obj w lacks in
        subst (λ o. Told obj w ((check_managed_object c control_plane scheme obj w).0.0, o))
          (sym silent)
          (elim (Bool-cases (is_deletion_protected obj)) [
            | inl safe ↦ told_held _ (unowned lacks ((protected_iff obj).0 safe)) (protects ∙ safe)
            | inr bare ↦ told_free _ (protects ∙ bare)
          ])
    | inr has ↦
        subst (λ r. Told obj w r.0) (sym (having obj w has))
          (find_composite-Told obj w (scheme (owner_gvk obj)) has refl)
  ]

  having_found :
      (obj : Object) (w : W) (r : Result Error Object)
      → lacks_owner obj ≡ false
      → scheme (owner_gvk obj) ≡ ok true
      → (search obj w).0 ≡ r
      → (check_managed_object c control_plane scheme obj w).0
        ≡ (read_composite c control_plane scheme obj
            (label owner_composite_label obj)
            (r, (search obj w).1)).0
  unfolding find_composite
  having_found obj w r has known found =
      ap (λ x. x.0) (having obj w has)
      ∙ ap
          (λ s.
            (find_composite c control_plane scheme obj (label owner_composite_label obj)
              (owner_gvk obj) s w).0)
          known
      ∙ ap
          (λ x.
            (read_composite c control_plane scheme obj (label owner_composite_label obj)
              (x, (search obj w).1)).0)
          found

  -- What a protected object is answered, and what an object whose owner cannot be found.
  Holds-exists :
      (obj : Object) (w : W)
      → Holds obj w
      → ((check_managed_object c control_plane scheme obj w).0.1 ≡ none)
        × ((check_managed_object c control_plane scheme obj w).0.0.exists ≡ true)
  unfolding read_composite unless_deleted
  Holds-exists obj w (unowned lacks safe) =
      let (protects, silent) = lacking obj w lacks in
      (silent, protects ∙ (protected_iff obj).1 safe)
  Holds-exists obj w (owned comp has known found live safe) =
      let answer = having_found obj w (ok comp) has known found in
      (
        ap (λ x. x.1) answer,
        ap (λ x. x.0.exists) answer
            ∙ ap
                (λ o.
                  (unless_deleted c control_plane scheme obj (label owner_composite_label obj)
                    o).exists)
                live
            ∙ (protected_iff obj).1 safe,
      )

  Fails-error :
      (obj : Object) (w : W) (e : Error)
      → Fails obj w e
      → (check_managed_object c control_plane scheme obj w).0.1 ≡ some e
  unfolding find_composite
  Fails-error obj w e (unknown has known) = rw (having obj w has, known) refl
  Fails-error obj w e (invalid has known) = rw (having obj w has, known) refl
  Fails-error obj w e (unread e' has known found differs) =
      elim (read_error obj (label owner_composite_label obj) e (search obj w).1) [
        | inl (missing, same) ↦ absurd (differs missing)
        | inr (_, same) ↦ ap (λ r. r.1) (having_found obj w (err e) has known found ∙ same)
      ]

  pub checked_lem :
      (obj : Object) (w : W)
      → ((((check_managed_object c control_plane scheme obj w).0.1 ≡ none)
            × ((check_managed_object c control_plane scheme obj w).0.0.exists ≡ true))
          ↔ Holds obj w)
        × ((e : Error)
            → ((check_managed_object c control_plane scheme obj w).0.1 ≡ some e) ↔ Fails obj w e)
  checked_lem obj w = (
    (
      λ (silent, exists). held _ (check_managed_object-Told obj w) silent exists,
      Holds-exists obj w,
    ),
    λ e. (λ error. failed _ e (check_managed_object-Told obj w) error, Fails-error obj w e),
  )
    where
      held :
          (r : CompositeInfo × Option Error)
          → Told obj w r
          → r.1 ≡ none
          → r.0.exists ≡ true
          → Holds obj w
      held r (told_held found holds exists) silent there = holds
      held r (told_free found free) silent there = cc
      held r (told_error found e fails) silent there = cc

      failed :
          (r : CompositeInfo × Option Error) (e : Error)
          → Told obj w r
          → r.1 ≡ some e
          → Fails obj w e
      failed r e (told_held found holds exists) error = cc
      failed r e (told_free found free) error = cc
      failed r e (told_error found e' fails) error =
          let same : e' ≡ e = cc in subst (Fails obj w) same fails
