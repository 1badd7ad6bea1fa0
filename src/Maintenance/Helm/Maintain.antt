-- ===== src/Maintenance/Helm/Maintain.antt =====
-- What DoMaintenance of pkg/maintenance/helm/helmpatcher.go does to a release.
use appcat.Common.{
  Bool, false, ◌||◌, String, str_eq, List, ◌∷◌, some, ◌≡◌, refl, ap, ◌∙◌, inl, inr, subst, eq_refl,
  Bool-cases, if◌then◌else◌,
}
use appcat.Common.Results.{Result, ok}
use appcat.Maintenance.Semver.{Version, Semver}
use appcat.Maintenance.Helm.{
  Release, VersionLister, Client, text, get_versions, find_release, named_release, get_release,
  tag_of, get_current_tag_from_release, from_strategy, patch_unless_same, sem_ver_patches,
  get_json_patch_path, maintain, do_maintenance,
}
use appcat.Maintenance.Helm.Patches.{IsNewest, sem_ver_patches_lem}

-- What is found for the instance: the first release in its namespace, which has a name, and the text
-- at the path of the tag.
pub record Finds {W : Type 0} (c : Client W) (namespace : String) (path : List String) (w w' : W)
    (release : Release) (tag : String) : Type 0 where
  pub items : List Release
  pub listed : c.list_releases w ≡ (ok items, w')
  pub first : find_release namespace items ≡ some release
  pub named : str_eq release.name "" ≡ false
  pub at_path : c.nested release.values path ≡ some (text tag)

module _ {W : Type 0} (c : Client W) where
  maintain_lem :
      (namespace : String) (path : List String)
      (strategy : VersionLister → String → Result _ String) (results : VersionLister) (w w' : W)
      (release : Release) (tag version : String)
      → Finds c namespace path w w' release tag
      → strategy results tag ≡ ok version
      → maintain c namespace path strategy results w
        ≡ patch_unless_same c release path tag version w'
  unfolding maintain get_release named_release get_current_tag_from_release tag_of from_strategy
  maintain_lem namespace path strategy results w w' release tag version finds chosen =
      rw (finds.listed, finds.first, finds.named, finds.at_path, chosen) refl

  -- If versions are listed and the instance's release has a tag that is a version, then DoMaintenance
  -- with a strategy of semVerPatches changes nothing where the version that is found equals the current
  -- one or has the tag for its text, and else sends one patch: of this release, at the JSON path of the
  -- tag, to the text of the version that is found.
  pub do_maintenance_lem :
      (sv : Semver) (ignore_build check_minor : Bool) (namespace : String) (path : List String)
      (results : VersionLister) (w w' : W) (release : Release) (tag : String) (current : Version)
      (v : String) (versions : List String)
      → get_versions results ≡ v ∷ versions
      → Finds c namespace path w w' release tag
      → sv.parse_tolerant tag ≡ some current
      → (n : Version) × IsNewest sv ignore_build check_minor (v ∷ versions) current n
        × (do_maintenance c namespace path
              (sem_ver_patches sv ignore_build check_minor)
              (ok results, w)
            ≡ (if sv.eq current n || str_eq tag (sv.print n)
                then (ok tt, w')
                else c.patch release (get_json_patch_path path) (sv.print n) w'))
  unfolding do_maintenance patch_unless_same
  do_maintenance_lem sv ignore_build check_minor namespace path results w w' release tag current v
        versions listed finds parses =
      let (n, chosen, newest) =
        sem_ver_patches_lem sv ignore_build check_minor results tag current parses in
      let run =
        maintain_lem namespace path (sem_ver_patches sv ignore_build check_minor) results w w'
          release tag in
      (
        n,
        subst (λ vs. IsNewest sv ignore_build check_minor vs current n) listed newest,
        rw (listed, do_maintenance)
            (elim (Bool-cases (sv.eq current n)) [
              | inl same ↦
                  run tag finds (chosen ∙ ap (λ b. if b then ok tag else ok (sv.print n)) same)
                  ∙ rw (same, eq_refl) refl
              | inr other ↦
                  run (sv.print n) finds
                    (chosen ∙ ap (λ b. if b then ok tag else ok (sv.print n)) other)
                  ∙ rw other refl
            ]),
      )
