-- ===== src/Maintenance/Examples/Releases.antt =====
-- Runs of pkg/maintenance/release against an API server with one composite and no claim.
use appcat.Common.{
  ℕ, true, String, str_eq, List, [], ◌∷◌, Option, none, some, ◌≡◌, refl, if◌then◌else◌,
}
use mathlib.Core.Option.{none-ne-some}
use appcat.Common.Results.{ok, err}
use appcat.Maintenance.Semver.{Version}
use appcat.Maintenance.Release.{
  not_found, CompositionRevision, CompositionObject, VersionHandler, Client, revision_label,
  get_claim_gvk, remove_leading_x, get_latest_revision, get_latest_revision_label, release_latest,
  parse_revision_label, first_part, get_current_revision_label, choose_latest, chosen,
  filter_revisions_by_age, latest_of, highest, label_of, has_auto_update_label,
}
use appcat.Maintenance.Release.Update.{
  Holds, Moved, release_latest_lem, IsPinned, IsVersion, release_all, release_all-IsPinned,
}
use appcat.Maintenance.Examples.Versions.{version, numbers, numbers-IsOrder}

abbrev handler : VersionHandler
handler = record {
  claim_name = "db";
  composite_name = "db-x";
  claim_namespace = "shop";
  owner_group = "vshn.appcat.vshn.io";
  owner_kind = "XVSHNRedis";
  owner_version = "v1";
  service_id = "vshn-redis";
  service_id_label = "metadata.appcat.vshn.io/serviceID";
}

claim_kind : (get_claim_gvk handler).kind ≡ "VSHNRedis"
unfolding get_claim_gvk remove_leading_x
claim_kind = refl

abbrev revision : String → ℕ → ℕ → CompositionRevision
revision label number created = record {
  name = label;
  labels = (revision_label, label) ∷ [];
  revision = number;
  creation_timestamp = created;
}

-- The newest of the three is too young at time 100 for an age of 50.
abbrev revisions : List CompositionRevision
revisions =
    revision "v1.2.3-v4.0.0" 2 40
    ∷ revision "v1.1.9-v4.0.0" 1 10
    ∷ revision "v1.3.0-v4.0.0" 3 90
    ∷ []

-- The state is the composite.
abbrev cluster : Client CompositionObject
cluster = record {
  now = λ w. (100, w);
  list_revisions = λ label id w. (ok revisions, w);
  get = λ gvk namespace name w. if str_eq namespace "" then (ok w, w) else (err not_found, w);
  update =
      λ gvk namespace name obj w. if str_eq namespace "" then (ok tt, obj) else (err not_found, w);
}

abbrev pinned : String → CompositionObject
pinned label = record {
  labels = [];
  update_policy = some "Automatic";
  revision_selector = some ((revision_label, label) ∷ []);
}

abbrev no_claim : CompositionObject → Option CompositionObject
no_claim w = none

cluster-Holds : Holds cluster handler no_claim (λ w. w)
cluster-Holds = record {
  get_claim = λ w there. cc;
  claim_missing = λ w missing. refl;
  get_composite = λ w. refl;
  put_claim = λ obj w there. absurd (none-ne-some _ there);
  put_composite = λ obj w. (obj, refl, refl, refl);
}

latest_label :
    get_latest_revision_label cluster numbers handler 50 (pinned "v1.1.9-v4.0.0")
    ≡ (ok "v1.2.3-v4.0.0", pinned "v1.1.9-v4.0.0")
unfolding get_latest_revision_label get_latest_revision choose_latest chosen filter_revisions_by_age
    latest_of highest label_of
latest_label = refl

release_latest_lem_example :
    (w' : CompositionObject) × (release_latest cluster numbers handler true 50
        (pinned "v1.1.9-v4.0.0")
      ≡ (ok tt, w'))
    × Moved numbers cluster-Holds "v1.2.3-v4.0.0" (pinned "v1.1.9-v4.0.0") w'
release_latest_lem_example =
    release_latest_lem numbers cluster-Holds 50 "v1.2.3-v4.0.0" (pinned "v1.1.9-v4.0.0")
      (pinned "v1.1.9-v4.0.0") latest_label refl

starts_pinned : IsPinned numbers (version 1 2 3 []) (pinned "v1.2.3-v4.0.0")
unfolding has_auto_update_label get_current_revision_label parse_revision_label first_part
starts_pinned = (refl, refl)

lower-IsVersion : IsVersion numbers "v1.1.9-v4.0.0"
unfolding parse_revision_label first_part
lower-IsVersion = (version 1 1 9 [], refl)

release_all-IsPinned_example :
    (v' : Version) × IsPinned numbers v'
      (release_all numbers ("v1.1.9-v4.0.0" ∷ []) (pinned "v1.2.3-v4.0.0"))
    × (numbers.lte (version 1 2 3 []) v' ≡ true)
release_all-IsPinned_example =
    release_all-IsPinned numbers numbers-IsOrder ("v1.1.9-v4.0.0" ∷ []) (pinned "v1.2.3-v4.0.0")
      (version 1 2 3 []) (lower-IsVersion, tt) starts_pinned
