-- ===== src/Maintenance/Release.antt =====
-- The choice of the composition revision that an instance is moved to: pkg/maintenance/release.
-- Times and durations are nanoseconds. The Kubernetes API and the clock are parameters; `W` is the
-- state of both. Errors are kept without the texts that wrap them, which change neither their kind
-- nor the control flow.
pub mod Latest
pub mod Update
use appcat.Common.{
  ℕ, ◌+◌, leb, ltb, ◌==◌, Bool, true, false, ◌&&◌, ◌||◌, String, str_eq, List, [], ◌∷◌, Option,
  none, some, keep_if, if◌then◌else◌,
}
use appcat.Common.Results.{
  GroupVersionKind, is_true, Result, ok, err, Io, ◌>>=◌, pure, fail, and_then, lookup,
  text_or_empty,
}
use appcat.Maintenance.Semver.{Version, Semver}
use Prim.Native.Char.{code}

pub data Error : Type 0 where
  not_found no_revisions no_revision_label : Error
  other : String → Error

-- crossplane's CompositionRevision; `revision` is the number in its spec.
pub record CompositionRevision : Type 0 where
  pub name : String
  pub labels : List (String × String)
  pub revision : ℕ
  pub creation_timestamp : ℕ

-- What the code reads and writes of a claim or a composite. A selector is nil or has labels; labels
-- that are nil are the empty list.
pub record CompositionObject : Type 0 where
  pub labels : List (String × String)
  pub update_policy : Option String
  pub revision_selector : Option (List (String × String))

pub record VersionHandler : Type 0 where
  pub claim_name : String
  pub composite_name : String
  pub claim_namespace : String
  pub owner_group : String
  pub owner_kind : String
  pub owner_version : String
  pub service_id : String
  pub service_id_label : String

-- `get` and `update` take the kind, the namespace and the name; a composite has no namespace.
pub record Client (W : Type 0) : Type 0 where
  pub now : W → ℕ × W
  pub list_revisions : String → String → Io W Error (List CompositionRevision)
  pub get : GroupVersionKind → String → String → Io W Error CompositionObject
  pub update : GroupVersionKind → String → String → CompositionObject → Io W Error (Unit {0})

abbrev pub revision_label : String
revision_label = "metadata.appcat.vshn.io/revision"

abbrev pub auto_update : String
auto_update = "metadata.appcat.vshn.io/autoUpdate"

-- strings.TrimLeft with "Xx".
unfoldable pub remove_leading_x : String → String
remove_leading_x String.[] = String.[]
remove_leading_x (String.◌∷◌ c s) =
    let rest = remove_leading_x s in
    if code c == b'X' || code c == b'x' then rest else String.◌∷◌ c s

unfoldable pub get_claim_gvk : VersionHandler → GroupVersionKind
get_claim_gvk vh = record {
  group = vh.owner_group;
  version = vh.owner_version;
  kind = remove_leading_x vh.owner_kind;
}

unfoldable pub get_composite_gvk : VersionHandler → GroupVersionKind
get_composite_gvk vh = record {
  group = vh.owner_group;
  version = vh.owner_version;
  kind = vh.owner_kind;
}

-- The text before the first dash.
unfoldable pub first_part : String → String
first_part String.[] = String.[]
first_part (String.◌∷◌ c s) =
    let rest = String.◌∷◌ c (first_part s) in if code c == b'-' then String.[] else rest

unfoldable pub parse_revision_label : Semver → String → Option Version
parse_revision_label sv label =
    if str_eq label "" then none else sv.parse_tolerant (first_part label)

unfoldable pub current_of : Option (List (String × String)) → String
current_of none = ""
current_of (some labels) = text_or_empty (lookup revision_label labels)

unfoldable pub get_current_revision_label : CompositionObject → String
unfolding current_of
get_current_revision_label obj = current_of obj.revision_selector

-- A label that is no version does not stop the update.
unfoldable pub not_higher : Semver → Option Version → Option Version → Bool
not_higher sv none target = false
not_higher sv (some current) none = false
not_higher sv (some current) (some target) = sv.lte target current

unfoldable pub should_skip_revision_update : Semver → CompositionObject → String → Bool
unfolding not_higher
should_skip_revision_update sv obj target =
    let current = get_current_revision_label obj in
    if str_eq current ""
    then false
    else not_higher sv (parse_revision_label sv current) (parse_revision_label sv target)

unfoldable pub apply_update_policy : CompositionObject → String → CompositionObject
apply_update_policy obj revision = record obj {
  update_policy = some "Automatic";
  revision_selector = some ((revision_label, revision) ∷ []);
}

unfoldable pub set_auto_policy : CompositionObject → CompositionObject
set_auto_policy obj = record obj { update_policy = some "Automatic"; revision_selector = none }

unfoldable pub has_auto_update_label : CompositionObject → Bool
has_auto_update_label obj = is_true (lookup auto_update obj.labels)

-- The object that is sent to the API; `none` if the update is skipped.
unfoldable pub next_object : Semver → Bool → String → CompositionObject → Option CompositionObject
next_object sv false revision obj = some (set_auto_policy obj)
next_object sv true revision obj =
    if has_auto_update_label obj
    then some (set_auto_policy obj)
    else (if should_skip_revision_update sv obj revision
        then none
        else some (apply_update_policy obj revision))

unfoldable pub filter_revisions_by_age : ℕ → ℕ → List CompositionRevision → List CompositionRevision
filter_revisions_by_age now min_age revisions =
    keep_if (λ item. leb (item.creation_timestamp + min_age) now) revisions

-- The loop for the highest revision, from the first one.
unfoldable pub highest : CompositionRevision → List CompositionRevision → CompositionRevision
highest latest [] = latest
highest latest (item ∷ items) =
    highest (if ltb latest.revision item.revision then item else latest) items

-- Without an eligible revision the search falls back to all of them.
unfoldable pub latest_of :
    List CompositionRevision → List CompositionRevision → Option CompositionRevision
latest_of (r ∷ eligible) revisions = some (highest r eligible)
latest_of [] (r ∷ revisions) = some (highest r revisions)
latest_of [] [] = none

module _ {W : Type 0} (c : Client W) (sv : Semver) (vh : VersionHandler) where
  -- The answer, with the states before and after the reading of the clock.
  unfoldable pub chosen : W → W → Option CompositionRevision → Result Error CompositionRevision × W
  chosen w w' none = (err no_revisions, w)
  chosen w w' (some latest) = (ok latest, w')

  unfoldable pub choose_latest : ℕ → List CompositionRevision → Io W Error CompositionRevision
  choose_latest min_age revisions w =
      let (now, w') = c.now w in
      chosen w w' (latest_of (filter_revisions_by_age now min_age revisions) revisions)

  unfoldable pub get_latest_revision : ℕ → Io W Error CompositionRevision
  get_latest_revision min_age = do
    revisions ← c.list_revisions vh.service_id_label vh.service_id
    choose_latest min_age revisions

  unfoldable pub label_of : CompositionRevision → Io W Error String
  label_of cr w =
      let label = text_or_empty (lookup revision_label cr.labels) in
      if str_eq label "" then (err no_revision_label, w) else (ok label, w)

  unfoldable pub get_latest_revision_label : ℕ → Io W Error String
  get_latest_revision_label min_age = do cr ← get_latest_revision min_age; label_of cr

  unfoldable pub update_object :
      GroupVersionKind → String → String → Option CompositionObject → Io W Error (Unit {0})
  update_object gvk namespace name none = pure tt
  update_object gvk namespace name (some obj) = c.update gvk namespace name obj

  unfoldable pub update_claim : String → Bool → Io W Error (Unit {0})
  update_claim revision enabled = do
    obj ← c.get (get_claim_gvk vh) vh.claim_namespace vh.claim_name
    update_object (get_claim_gvk vh) vh.claim_namespace vh.claim_name
        (next_object sv enabled revision obj)

  unfoldable pub update_composite : String → Bool → Io W Error (Unit {0})
  update_composite revision enabled = do
    obj ← c.get (get_composite_gvk vh) "" vh.composite_name
    update_object (get_composite_gvk vh) "" vh.composite_name (next_object sv enabled revision obj)

  unfoldable pub is_not_found : Error → Bool
  is_not_found not_found = true
  is_not_found _ = false

  unfoldable pub or_composite :
      String → Bool → Result Error (Unit {0}) × W → Result Error (Unit {0}) × W
  or_composite revision enabled (ok a, w) = (ok a, w)
  or_composite revision enabled (err e, w) =
      if is_not_found e || (str_eq vh.claim_name "" && str_eq vh.claim_namespace "")
      then update_composite revision enabled w
      else (err e, w)

  unfoldable pub release_revision : String → Bool → Io W Error (Unit {0})
  release_revision revision enabled w =
      or_composite revision enabled (update_claim revision enabled w)

  unfoldable pub release_enabled : String → Io W Error (Unit {0})
  release_enabled revision w =
      if str_eq revision "" then (ok tt, w) else release_revision revision true w

  unfoldable pub release_latest : Bool → ℕ → Io W Error (Unit {0})
  release_latest false min_age = release_revision "" false
  release_latest true min_age = do
    revision ← get_latest_revision_label min_age
    release_enabled revision
