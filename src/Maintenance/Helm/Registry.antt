-- ===== src/Maintenance/Helm/Registry.antt =====
-- The tags of an image from Docker Hub or another registry: getVersions and all below it in
-- pkg/maintenance/helm/helmpatcher.go. The loops over pages take fuel; `none` is no answer yet.
pub mod Pages
use appcat.Common.{
  ℕ, zero, suc, ◌==◌, Bool, true, false, not, String, str_eq, List, [], ◌∷◌, ◌++◌, Option, none,
  some, length, if◌then◌else◌,
}
use appcat.Common.Results.{Result, ok, err, Io, ◌>>=◌, pure, fail, and_then, expect}
use appcat.Common.Text.{split, trim, trim_space, contains_text, cut}
use appcat.Maintenance.Helm.{
  Error, undecodable, bad_url, no_realm, no_scope, bad_status, Image, VersionLister, payload,
  registry_result,
}
use Prim.Native.String.{◌++◌ as text_append}
use text.Mathlib.Text.{starts_with}

pub record Response : Type 0 where
  pub status_code : ℕ
  pub link : String
  pub www_authenticate : String
  pub body : String

-- `get` takes a URL and perhaps a bearer token. The decoders are for the tags of a registry, the
-- images of Docker Hub and the field "token"; `submatch` is the first group of a regular expression
-- that matches; `parse_url` has the scheme and the host.
pub record Http (W : Type 0) : Type 0 where
  pub get : String → Option String → Io W Error Response
  pub decode_tags : String → Option (List String)
  pub decode_images : String → Option (List Image)
  pub decode_token : String → Option String
  pub submatch : String → String → Option String
  pub parse_url : String → Option (String × String)
  pub format_int : ℕ → String

-- What a loop returns after its fuel.
abbrev pub Answer : Type 0 → Type 0 → Type 0
Answer W A = Option (Result Error A × W)

abbrev pub is_link_end : ℕ → Bool
is_link_end c = if c == b' ' then true else (if c == b'<' then true else c == b'>')

-- One part of a Link header: the URL, if the part is for the next page.
unfoldable pub next_url : String → Option String
next_url part =
    let (url, rel, found) = cut (trim_space part) ";" in
    if found
    then (if contains_text (trim_space rel) "rel=\"next\""
        then some (trim is_link_end url)
        else none)
    else none

unfoldable pub first_next : List String → String
first_next [] = ""
first_next (part ∷ parts) = elim (next_url part) [ none ↦ first_next parts | some url ↦ url ]

unfoldable pub parse_link_header : String → String
parse_link_header link = if str_eq link "" then "" else first_next (split b',' link)

unfoldable pub with_slash : String → String
with_slash path = if starts_with path "/" then path else text_append "/" path

unfoldable pub bearer : String → Option String
bearer token = if str_eq token "" then none else some token

-- A full page is followed by another.
unfoldable pub after_images :
    {W : Type 0}
    → List Image
    → (List Image → W → Answer W (List Image))
    → Result Error (List Image) × W
    → Answer W (List Image)
after_images results continue (err e, w) = some (err e, w)
after_images results continue (ok images, w) =
    if length images == 100
    then continue (results ++ images) w
    else some (ok (results ++ images), w)

unfoldable pub after_tags :
    {W : Type 0}
    → List String
    → (String → List String → W → Answer W (List String))
    → Result Error (List String × String) × W
    → Answer W (List String)
after_tags results continue (err e, w) = some (err e, w)
after_tags results continue (ok (tags, next), w) =
    if str_eq next "" then some (ok (results ++ tags), w) else continue next (results ++ tags) w

abbrev pub as_lister : {W A : Type 0} → (A → VersionLister) → Answer W A → Answer W VersionLister
as_lister f none = none
as_lister f (some (ok a, w)) = some (ok (f a), w)
as_lister f (some (err e, w)) = some (err e, w)

module _ {W : Type 0} (h : Http W) where
  unfoldable pub hub_page : String → ℕ → Io W Error (List Image)
  hub_page image_url page = do
    resp ← h.get (text_append image_url (text_append "&page=" (h.format_int page))) none
    expect undecodable (h.decode_images resp.body)

  unfoldable pub hub_pages : ℕ → String → ℕ → List Image → W → Answer W (List Image)
  hub_pages zero image_url page results w = none
  hub_pages (suc fuel) image_url page results w =
      after_images results (hub_pages fuel image_url (suc page)) (hub_page image_url page w)

  unfoldable pub get_hub_versions : ℕ → String → W → Answer W VersionLister
  get_hub_versions fuel image_url w = as_lister payload (hub_pages fuel image_url 1 [] w)

  unfoldable pub get_token : String → Io W Error String
  get_token auth_header = do
    realm ← expect no_realm (h.submatch "realm=\"(.*?)\"" auth_header)
    scope ← expect no_scope (h.submatch "scope=\"(.*?)\"" auth_header)
    resp ← h.get (text_append realm (text_append "?scope=" scope)) none
    expect undecodable (h.decode_token resp.body)

  -- The token and the answer to the request that has it.
  unfoldable pub list_tags_with_token : String → String → Io W Error (Response × String)
  list_tags_with_token image_url auth_header = do
    token ← get_token auth_header
    resp ← h.get image_url (some token)
    pure (resp, token)

  unfoldable pub authorised : String → Response → Io W Error (Response × String)
  authorised image_url resp w =
      if resp.status_code == 401
      then list_tags_with_token image_url resp.www_authenticate w
      else (ok (resp, ""), w)

  -- The tags of an answer, and the path of the next page.
  unfoldable pub read_tags : Response → Io W Error (List String × String)
  read_tags resp w =
      let decoded =
        and_then (expect undecodable (h.decode_tags resp.body) w)
          (λ tags. pure (tags, parse_link_header resp.link)) in
      if resp.status_code == 200 then decoded else (err (bad_status resp.status_code), w)

  unfoldable pub registry_page :
      String → String → String → String → Io W Error (List String × String)
  registry_page scheme host token path = do
    resp ←
        h.get (text_append scheme (text_append "://" (text_append host (with_slash path))))
          (bearer token)
    read_tags resp

  unfoldable pub registry_pages :
      ℕ → String → String → String → String → List String → W → Answer W (List String)
  registry_pages zero scheme host token path results w = none
  registry_pages (suc fuel) scheme host token path results w =
      after_tags results (registry_pages fuel scheme host token)
        (registry_page scheme host token path w)

  -- The first page: its tags, the next path, the token, the scheme and the host.
  unfoldable pub first_page : String → Io W Error (List String × String × String × String × String)
  first_page image_url = do
    resp ← h.get image_url none
    (answer, token) ← authorised image_url resp
    (tags, next) ← read_tags answer
    (scheme, host) ← expect bad_url (h.parse_url image_url)
    pure (tags, next, token, scheme, host)

  unfoldable pub after_first :
      ℕ
      → Result Error (List String × String × String × String × String) × W
      → Answer W (List String)
  after_first fuel (err e, w) = some (err e, w)
  after_first fuel (ok (tags, next, token, scheme, host), w) =
      let rest = registry_pages fuel scheme host token next tags w in
      if str_eq next "" then some (ok tags, w) else rest

  unfoldable pub get_registry_versions : ℕ → String → W → Answer W VersionLister
  get_registry_versions fuel image_url w =
      as_lister registry_result (after_first fuel (first_page image_url w))

  unfoldable pub get_image_versions : ℕ → String → W → Answer W VersionLister
  get_image_versions fuel image_url w =
      if contains_text image_url "https://hub.docker.com"
      then get_hub_versions fuel image_url w
      else get_registry_versions fuel image_url w
