-- ===== src/Webhooks/Deletion.antt =====
-- The protection of objects against deletion: pkg/controller/webhooks/deletionprotection.go, with the
-- handlers of generic_deletionprotection_handler.go and unmanaged_protection.go. Kubernetes is a
-- parameter. Errors are kept without the texts that wrap them.
pub mod Holds
pub mod Managed
pub mod Unmanaged
use appcat.Common.{
  Bool, true, false, ◌&&◌, not, String, str_eq, List, [], ◌∷◌, Option, none, some, if◌then◌else◌,
}
use appcat.Common.Results.{GroupVersionKind, is_true, Result, ok, err, Io, lookup, text_or_empty}
use text.Mathlib.Text.{starts_with}
use Prim.Native.String.{◌++◌ as text_append}

pub data Error : Type 0 where
  not_found not_registered invalid_object : Error
  unexpected_operation : String → Error
  other : String → Error

-- What the code reads of an object of any kind; labels that are nil are the empty list.
pub record Object : Type 0 where
  pub namespace : String
  pub kind : String
  pub labels : List (String × String)
  pub deletion_timestamp : Option String

pub record Client (W : Type 0) : Type 0 where
  pub get : GroupVersionKind → String → Io W Error Object

abbrev pub namespace_kind : GroupVersionKind
namespace_kind = record { group = ""; version = "v1"; kind = "Namespace" }

abbrev pub override_label : String
override_label = "appcat.vshn.io/webhook-allowdeletion"

abbrev pub storage_override_label : String
storage_override_label = "appcat.vshn.io/webhook-allowpvcdeletion"

abbrev pub owner_composite_label : String
owner_composite_label = "appcat.vshn.io/ownercomposite"

abbrev pub owner_kind_label : String
owner_kind_label = "appcat.vshn.io/ownerkind"

abbrev pub owner_version_label : String
owner_version_label = "appcat.vshn.io/ownerapiversion"

abbrev pub owner_group_label : String
owner_group_label = "appcat.vshn.io/ownergroup"

abbrev pub protected_message : String
protected_message =
    "%s is part of a VSHN AppCat service and protected from deletions. Either delete the the claim for composite %s or set this label on the object: 'appcat.vshn.io/webhook-allowdeletion: \"true\"'"

pub record CompositeInfo : Type 0 where
  pub exists : Bool
  pub name : String
  pub reason : String

unfoldable pub is_deletion_protected : Object → Bool
is_deletion_protected obj = not (is_true (lookup override_label obj.labels))

abbrev pub label : String → Object → String
label key obj = text_or_empty (lookup key obj.labels)

abbrev pub info : Bool → String → CompositeInfo
info exists name = record { exists = exists; name = name; reason = "" }

-- The answer for an object without one of the labels.
unfoldable pub label_not_set : Object → String → String → CompositeInfo
label_not_set obj name key = record {
  exists = is_deletion_protected obj;
  name = name;
  reason = text_append key " label not set, blocking deletion";
}

unfoldable pub owner_gvk : Object → GroupVersionKind
owner_gvk obj = record {
  group = label owner_group_label obj;
  version = label owner_version_label obj;
  kind = label owner_kind_label obj;
}

-- An answer to an admission request; `denied` has a format and what is put into it.
pub data Response : Type 0 where
  allowed : Response
  denied : String → List String → Response
  errored : Error → Response

-- cpClient, which is the other client if it is nil.
abbrev pub cp_client : {W : Type 0} → Client W → Option (Client W) → Client W
cp_client c none = c
cp_client c (some cp) = cp

-- `scheme` says whether a new object of a kind is a client.Object.
module _ {W : Type 0} (c : Client W) (control_plane : Option (Client W))
    (scheme : GroupVersionKind → Result Error Bool) where
  -- A composite that is being deleted releases its objects.
  unfoldable pub unless_deleted : Object → String → Option String → CompositeInfo
  unless_deleted obj owner none = info (is_deletion_protected obj) owner
  unless_deleted obj owner (some _) = info false owner

  -- What is said of a composite that was looked up; the error may come with an answer.
  unfoldable pub read_composite :
      Object → String → Result Error Object × W → (CompositeInfo × Option Error) × W
  read_composite obj owner (err not_found, w) = ((info false owner, none), w)
  read_composite obj owner (err e, w) = ((info true owner, some e), w)
  read_composite obj owner (ok comp, w) =
      ((unless_deleted obj owner comp.deletion_timestamp, none), w)

  unfoldable pub find_composite :
      Object
      → String
      → GroupVersionKind
      → Result Error Bool
      → W
      → (CompositeInfo × Option Error) × W
  find_composite obj owner gvk (err not_registered) w = ((info false owner, some not_registered), w)
  find_composite obj owner gvk (err e) w = ((info false owner, none), w)
  find_composite obj owner gvk (ok false) w = ((info false owner, some invalid_object), w)
  find_composite obj owner gvk (ok true) w =
      read_composite obj owner ((cp_client c control_plane).get gvk owner w)

  unfoldable pub check_managed_object : Object → W → (CompositeInfo × Option Error) × W
  check_managed_object obj w =
      let owner = label owner_composite_label obj in
      if str_eq owner ""
      then ((label_not_set obj "unknown" owner_composite_label, none), w)
      else (if str_eq (label owner_kind_label obj) ""
          then ((label_not_set obj owner owner_kind_label, none), w)
          else (if str_eq (label owner_version_label obj) ""
              then ((label_not_set obj owner owner_version_label, none), w)
              else (if str_eq (label owner_group_label obj) ""
                  then ((label_not_set obj owner owner_version_label, none), w)
                  else find_composite obj owner (owner_gvk obj) (scheme (owner_gvk obj)) w)))

  abbrev pub no_info : CompositeInfo
  no_info = record { exists = false; name = ""; reason = "" }

  unfoldable pub and_protected :
      Object → (CompositeInfo × Option Error) × W → (CompositeInfo × Option Error) × W
  and_protected obj ((found, some e), w) = ((no_info, some e), w)
  and_protected obj ((found, none), w) =
      ((record found { exists = found.exists && is_deletion_protected obj }, none), w)

  unfoldable pub storage_overridden : Object → Object → Bool
  storage_overridden obj ns =
      starts_with obj.kind "PersistentVolume" && is_true (lookup storage_override_label ns.labels)

  unfoldable pub check_in_namespace :
      Object → Result Error Object × W → (CompositeInfo × Option Error) × W
  check_in_namespace obj (err not_found, w) = ((no_info, none), w)
  check_in_namespace obj (err e, w) = ((no_info, some e), w)
  check_in_namespace obj (ok ns, w) =
      if storage_overridden obj ns
      then ((no_info, none), w)
      else and_protected obj (check_managed_object ns w)

  unfoldable pub check_unmanaged_object : Object → W → (CompositeInfo × Option Error) × W
  check_unmanaged_object obj w = check_in_namespace obj (c.get namespace_kind obj.namespace w)

  unfoldable pub managed_response : (CompositeInfo × Option Error) × W → Response × W
  managed_response ((found, some e), w) = (errored e, w)
  managed_response ((found, none), w) =
      let message = if str_eq found.reason "" then protected_message else found.reason in
      if found.exists then (denied message ("release" ∷ found.name ∷ []), w) else (allowed, w)

  -- The validation of the deletion of a managed object; an error of the webhook denies it.
  unfoldable pub validate_delete : Object → W → Response × W
  validate_delete obj w = managed_response (check_managed_object obj w)

  unfoldable pub unmanaged_response : Object → (CompositeInfo × Option Error) × W → Response × W
  unmanaged_response obj ((found, some e), w) = (errored e, w)
  unmanaged_response obj ((found, none), w) =
      if found.exists
      then (denied protected_message (obj.kind ∷ found.name ∷ []), w)
      else (allowed, w)

  unfoldable pub handle_old : Result Error Object → W → Response × W
  handle_old (err e) w = (errored e, w)
  handle_old (ok obj) w = unmanaged_response obj (check_unmanaged_object obj w)

  -- The handler of unmanaged objects, for an operation and the bytes of the old object, which
  -- `unmarshal` reads.
  unfoldable pub handle : (String → Result Error Object) → String → String → W → Response × W
  handle unmarshal operation raw w =
      if str_eq operation "DELETE"
      then handle_old (unmarshal raw) w
      else (errored (unexpected_operation operation), w)
