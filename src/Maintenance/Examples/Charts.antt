-- ===== src/Maintenance/Examples/Charts.antt =====
-- Runs of pkg/maintenance/helm against a registry with two pages of tags and Docker Hub with one.
use appcat.Common.{
  ℕ, suc, ◌||◌, false, String, str_eq, List, [], ◌∷◌, Option, none, some, ◌≡◌, refl, if◌then◌else◌,
}
use appcat.Common.Results.{Result, ok, err}
use appcat.Common.Text.{
  split, split_from, trim, trim_left, trim_right, trim_space, is_space, contains_text, cut,
}
use appcat.Maintenance.Semver.{Version}
use appcat.Maintenance.Helm.{
  Error, unreachable, Image, payload, Release, text, Client, get_versions, find_release,
  sem_ver_patches, do_maintenance, maintain, get_release, get_current_tag_from_release,
  patch_unless_same, newest_tag, newest, consider, next_minor, next_patch,
}
use appcat.Maintenance.Helm.Patches.{IsNewest}
use appcat.Maintenance.Helm.Maintain.{Finds, do_maintenance_lem}
use appcat.Maintenance.Helm.Registry.{
  Response, Http, hub_page, registry_page, first_page, authorised, list_tags_with_token, get_token,
  read_tags, parse_link_header, first_next, next_url, with_slash, bearer,
}
use appcat.Maintenance.Helm.Registry.Pages.{HubServes, RegistryServes}
use appcat.Maintenance.Examples.Versions.{version, numbers}

link_runs :
    parse_link_header "<https://r/a>; rel=\"prev\", </v2/tags?n=2>; rel=\"next\"" ≡ "/v2/tags?n=2"
unfolding parse_link_header first_next next_url split split_from trim trim_left trim_right
    trim_space is_space contains_text cut
link_runs = refl

abbrev answer : ℕ → String → String → Response
answer status link body = record {
  status_code = status;
  link = link;
  www_authenticate = "Bearer";
  body = body;
}

abbrev second_page : String
second_page = "https://r.io/v2/tags?n=2"

-- The registry wants a token for its tags. The state counts the requests.
abbrev respond : String → Option String → ℕ → Result Error Response × ℕ
respond url none w =
    if str_eq url "https://r.io/token?scope=pull"
    then (ok (answer 200 "" "token"), suc w)
    else (if str_eq url "https://hub.docker.com/tags?x&page=1"
        then (ok (answer 200 "" "images"), suc w)
        else (ok (answer 401 "" ""), suc w))
respond url (some token) w =
    if str_eq url "https://r.io/v2/tags"
    then (ok (answer 200 "</v2/tags?n=2>; rel=\"next\"" "first"), suc w)
    else (if str_eq url second_page
        then (ok (answer 200 "" "second"), suc w)
        else (err unreachable, suc w))

abbrev image : String → String → Image
image name status = record { name = name; tag_status = status; content_type = "image" }

abbrev images : List Image
images = image "1.2.5" "active" ∷ image "2.0.0" "active" ∷ image "1.3.0-rc" "inactive" ∷ []

abbrev http : Http ℕ
http = record {
  get = respond;
  decode_tags = λ body. if str_eq body "first" then some ("1.2.3" ∷ []) else some ("1.2.5" ∷ []);
  decode_images = λ body. some images;
  decode_token = λ body. some "t";
  submatch = λ regex header.
      if str_eq regex "realm=\"(.*?)\"" then some "https://r.io/token" else some "pull";
  parse_url = λ url. some ("https", "r.io");
  format_int = λ n. "1";
}

one_page : HubServes http "https://hub.docker.com/tags?x" 1 0 (images ∷ []) 1
unfolding hub_page
one_page = (refl, refl)

tags_first :
    first_page http "https://r.io/v2/tags" 0
    ≡ (ok ("1.2.3" ∷ [], "/v2/tags?n=2", "t", "https", "r.io"), 3)
unfolding first_page authorised list_tags_with_token get_token read_tags parse_link_header
    first_next next_url split split_from trim trim_left trim_right trim_space is_space contains_text
    cut
tags_first = refl

tags_second : RegistryServes http "https" "r.io" "t" "/v2/tags?n=2" 3 (("1.2.5" ∷ []) ∷ []) 4
unfolding registry_page read_tags with_slash bearer parse_link_header
tags_second = refl

-- The state is the last version that a release was patched with.
abbrev release : Release
release = record { name = "db"; namespace = "vshn-redis"; values = "{}" }

abbrev charts : Client String
charts = record {
  list_releases = λ w. (ok (release ∷ []), w);
  nested = λ values path. some (text "1.2.3");
  patch = λ r path v w. (ok tt, v);
}

charts-Finds : Finds charts "vshn-redis" ("image" ∷ "tag" ∷ []) "" "" release "1.2.3"
unfolding find_release
charts-Finds = record {
  items = release ∷ [];
  listed = refl;
  first = refl;
  named = refl;
  at_path = refl;
}

listed_names : get_versions (payload images) ≡ "1.2.5" ∷ "2.0.0" ∷ []
unfolding get_versions
listed_names = refl

patched :
    do_maintenance charts "vshn-redis"
      ("image" ∷ "tag" ∷ [])
      (sem_ver_patches numbers false false)
      (ok (payload images), "")
    ≡ (ok tt, "1.2.5")
unfolding do_maintenance get_versions maintain get_release get_current_tag_from_release
    patch_unless_same find_release sem_ver_patches newest_tag newest consider next_minor next_patch
patched = refl

do_maintenance_lem_example :
    (n : Version) × IsNewest numbers false false ("1.2.5" ∷ "2.0.0" ∷ []) (version 1 2 3 []) n
    × (do_maintenance charts "vshn-redis"
          ("image" ∷ "tag" ∷ [])
          (sem_ver_patches numbers false false)
          (ok (payload images), "")
        ≡ (if numbers.eq (version 1 2 3 []) n || str_eq "1.2.3" (numbers.print n)
            then (ok tt, "")
            else (ok tt, numbers.print n)))
do_maintenance_lem_example =
    do_maintenance_lem charts numbers false false "vshn-redis" ("image" ∷ "tag" ∷ [])
      (payload images) "" "" release "1.2.3" (version 1 2 3 []) "1.2.5" ("2.0.0" ∷ []) listed_names
      charts-Finds refl
