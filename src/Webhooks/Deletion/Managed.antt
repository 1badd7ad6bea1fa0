-- ===== src/Webhooks/Deletion/Managed.antt =====
-- The answers of pkg/controller/webhooks/generic_deletionprotection_handler.go.
use appcat.Common.{Bool, true, Option, none, some, ◌≡◌, refl, ◌↔◌, inl, inr, Bool-cases}
use appcat.Common.Results.{GroupVersionKind, Result}
use appcat.Webhooks.Deletion.{
  Error, Object, Client, CompositeInfo, errored, check_managed_object, managed_response,
  validate_delete,
}
use appcat.Webhooks.Deletion.Holds.{is_denied, Holds, Fails, checked_lem}

module _ {W : Type 0} (c : Client W) (control_plane : Option (Client W))
    (scheme : GroupVersionKind → Result Error Bool) where
  managed_response_lem :
      (r : (CompositeInfo × Option Error) × W)
      → ((is_denied (managed_response c control_plane scheme r).0 ≡ true)
          ↔ ((r.0.1 ≡ none) × (r.0.0.exists ≡ true)))
        × ((e : Error)
            → ((managed_response c control_plane scheme r).0 ≡ errored e) ↔ (r.0.1 ≡ some e))
  unfolding managed_response
  managed_response_lem ((found, some e'), w') = ((λ x. cc, λ (x, y). cc), λ e. (λ x. cc, λ x. cc))
  managed_response_lem ((found, none), w') = elim (Bool-cases found.exists) [
    | inl there ↦ rw there ((λ x. (refl, refl), λ x. refl), λ e. (λ x. cc, λ x. cc))
    | inr gone ↦ rw gone ((λ x. cc, λ (x, y). cc), λ e. (λ x. cc, λ x. cc))
  ]

  -- ValidateDelete denies the deletion of an object exactly if its override label is not "true" and it either
  -- lacks one of the labels that name its owner, or its owner is found and is not being deleted. It
  -- answers with an error exactly if the owner's kind is not known, or the owner cannot be read for
  -- another reason than that it is gone.
  pub validate_delete_lem :
      (obj : Object) (w : W)
      → ((is_denied (validate_delete c control_plane scheme obj w).0 ≡ true)
          ↔ Holds c control_plane scheme obj w)
        × ((e : Error)
            → ((validate_delete c control_plane scheme obj w).0 ≡ errored e)
              ↔ Fails c control_plane scheme obj w e)
  unfolding validate_delete
  validate_delete_lem obj w =
      let (holds, fails) = checked_lem c control_plane scheme obj w in
      let (when_denied, when_error) =
        managed_response_lem (check_managed_object c control_plane scheme obj w) in
      (
        (λ no_way. holds.0 (when_denied.0 no_way), λ h. when_denied.1 (holds.1 h)),
        λ e. (
          λ failed. (fails e).0 ((when_error e).0 failed),
          λ f. (when_error e).1 ((fails e).1 f),
        ),
      )
