-- ===== src/Maintenance/Helm.antt =====
-- The maintenance of services that are Helm releases: pkg/maintenance/helm/helmpatcher.go. HTTP,
-- JSON, regular expressions, URLs and the Kubernetes API are parameters; `W` is their state. Errors
-- are kept without the texts that wrap them.
pub mod Registry
pub mod Patches
pub mod Maintain
use appcat.Common.{
  ℕ, suc, ◌+◌, ltb, ◌==◌, Bool, true, false, ◌&&◌, ◌||◌, String, str_eq, List, [], ◌∷◌, ◌++◌,
  Option, none, some, if◌then◌else◌,
}
use Prim.Native.String.{◌++◌ as text_append}
use appcat.Common.Text.{join}
use appcat.Common.Results.{Result, ok, err, Io, ◌>>=◌, pure, fail, and_then}
use appcat.Maintenance.Semver.{Version, Semver}

pub data Error : Type 0 where
  unreachable undecodable bad_url no_realm no_scope no_images no_release no_tag not_semver panics :
      Error
  bad_status : ℕ → Error
  other : String → Error

-- `Result` of the source: an image tag on Docker Hub.
pub record Image : Type 0 where
  pub name : String
  pub tag_status : String
  pub content_type : String

-- The two implementations of the interface.
pub data VersionLister : Type 0 where
  payload : List Image → VersionLister
  registry_result : List String → VersionLister

unfoldable pub active_names : List Image → List String
active_names [] = []
active_names (v ∷ images) =
    let rest = active_names images in
    if str_eq v.tag_status "active" && str_eq v.content_type "image" then v.name ∷ rest else rest

unfoldable pub get_versions : VersionLister → List String
unfolding active_names
get_versions (payload images) = active_names images
get_versions (registry_result tags) = tags

-- The loop's step for a listed version: first to the highest minor, then to the latest patch.
unfoldable pub next_minor : Bool → Version → Version → Version
next_minor check_minor v new_v =
    if check_minor && v.major == new_v.major && ltb new_v.minor v.minor then v else new_v

abbrev pub has_pre : Version → Bool
has_pre v = elim v.pre [ [] ↦ false | x ∷ xs ↦ true ]

unfoldable pub next_patch : Bool → Version → Version → Version
next_patch ignore_build v new_v =
    if v.major == new_v.major && v.minor == new_v.minor && ltb new_v.patch v.patch
    then (if ignore_build && has_pre v then new_v else v)
    else new_v

unfoldable pub consider : Bool → Bool → Option Version → Version → Version
consider ignore_build check_minor none new_v = new_v
consider ignore_build check_minor (some v) new_v =
    next_patch ignore_build v (next_minor check_minor v new_v)

unfoldable pub newest : Semver → Bool → Bool → List String → Version → Version
newest sv ignore_build check_minor [] new_v = new_v
newest sv ignore_build check_minor (res ∷ versions) new_v =
    newest sv ignore_build check_minor versions
      (consider ignore_build check_minor (sv.new res) new_v)

-- The answer for the version of the current tag. Where nothing is newer it is the tag itself.
unfoldable pub newest_tag :
    Semver → Bool → Bool → VersionLister → String → Option Version → Result Error String
newest_tag sv ignore_build check_minor results current_tag none = err not_semver
newest_tag sv ignore_build check_minor results current_tag (some current_v) =
    let new_v = newest sv ignore_build check_minor (get_versions results) current_v in
    if sv.eq current_v new_v then ok current_tag else ok (sv.print new_v)

unfoldable pub sem_ver_patches : Semver → Bool → Bool → VersionLister → String → Result Error String
sem_ver_patches sv ignore_build check_minor results current_tag =
    newest_tag sv ignore_build check_minor results current_tag (sv.parse_tolerant current_tag)

unfoldable pub sem_ver_patches_only : Semver → Bool → VersionLister → String → Result Error String
sem_ver_patches_only sv ignore_build = sem_ver_patches sv ignore_build false

unfoldable pub sem_ver_minor_and_patches :
    Semver → Bool → VersionLister → String → Result Error String
sem_ver_minor_and_patches sv ignore_build = sem_ver_patches sv ignore_build true

-- A Release of provider-helm; `values` is the JSON text of its values.
pub record Release : Type 0 where
  pub name : String
  pub namespace : String
  pub values : String

-- A field of the values: a text, or a value that is none.
pub data Field : Type 0 where
  text : String → Field
  not_text : Field

-- A value path is a list of keys. `nested` reads a field of a JSON text; `none` stands for a text
-- that is no JSON object, for a missing field and for a path through a value that is no object.
pub record Client (W : Type 0) : Type 0 where
  pub list_releases : Io W Error (List Release)
  pub nested : String → List String → Option Field
  pub patch : Release → String → String → Io W Error (Unit {0})

unfoldable pub find_release : String → List Release → Option Release
find_release namespace [] = none
find_release namespace (item ∷ items) =
    let rest = find_release namespace items in
    if str_eq item.namespace namespace then some item else rest

-- A release without a name counts as none.
unfoldable pub named_release : {W : Type 0} → Option Release → Io W Error Release
named_release none = fail no_release
named_release (some release) = if str_eq release.name "" then fail no_release else pure release

unfoldable pub get_json_patch_path : List String → String
get_json_patch_path path = text_append "/spec/forProvider/values/" (join "/" path)

module _ {W : Type 0} (c : Client W) where
  unfoldable pub get_release : String → Io W Error Release
  unfolding named_release
  get_release namespace = do items ← c.list_releases; named_release (find_release namespace items)

  -- The assertion that the tag is a text is not guarded.
  unfoldable pub tag_of : Option Field → Io W Error String
  tag_of none = fail no_tag
  tag_of (some (text tag)) = pure tag
  tag_of (some not_text) = fail panics

  unfoldable pub get_current_tag_from_release : Release → List String → Io W Error String
  unfolding tag_of
  get_current_tag_from_release release path = tag_of (c.nested release.values path)

  unfoldable pub from_strategy : Result Error String → Io W Error String
  from_strategy r w = (r, w)

  unfoldable pub patch_unless_same : Release → List String → String → String → Io W Error (Unit {0})
  patch_unless_same release path current_tag version w =
      if str_eq current_tag version
      then (ok tt, w)
      else c.patch release (get_json_patch_path path) version w

  -- DoMaintenance once the versions are known.
  unfoldable pub maintain :
      String
      → List String
      → (VersionLister → String → Result Error String)
      → VersionLister
      → Io W Error (Unit {0})
  unfolding from_strategy
  maintain namespace path version_comp results = do
    release ← get_release namespace
    current_tag ← get_current_tag_from_release release path
    version ← from_strategy (version_comp results current_tag)
    patch_unless_same release path current_tag version

  unfoldable pub do_maintenance :
      String
      → List String
      → (VersionLister → String → Result Error String)
      → Result Error VersionLister × W
      → Result Error (Unit {0}) × W
  do_maintenance namespace path version_comp (err e, w) = (err e, w)
  do_maintenance namespace path version_comp (ok results, w) = elim (get_versions results) [
    | [] ↦ (err no_images, w)
    | v ∷ versions ↦ maintain namespace path version_comp results w
  ]
