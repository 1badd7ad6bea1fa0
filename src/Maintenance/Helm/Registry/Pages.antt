-- ===== src/Maintenance/Helm/Registry/Pages.antt =====
-- The loops over pages in getHubVersions and getRegistryVersions of
-- pkg/maintenance/helm/helmpatcher.go collect all pages.
use appcat.Common.{
  ℕ, zero, suc, ◌≤◌, ◌==◌, true, false, String, str_eq, List, [], ◌∷◌, ◌++◌, some, length, ◌≡◌,
  refl, ap, ◌∙◌, arith,
}
use appcat.Common.Results.{ok}
use appcat.Maintenance.Helm.{Image, payload, registry_result}
use appcat.Maintenance.Helm.Registry.{
  Http, after_images, after_tags, as_lister, hub_page, hub_pages, get_hub_versions, registry_page,
  registry_pages, first_page, after_first, get_registry_versions,
}
use mathlib.Core.List.{append_assoc, append-nil}

abbrev pub concat {ℓ} : {A : Type ℓ} → List (List A) → List A
concat [] = []
concat (xs ∷ xss) = xs ++ concat xss

module _ {W : Type 0} (h : Http W) where
  -- Docker Hub answers with these pages from the given one on: all are full but the last.
  abbrev pub HubServes : String → ℕ → W → List (List Image) → W → Type 0
  HubServes url page w [] w' = ⊥
  HubServes url page w (images ∷ []) w' =
      (hub_page h url page w ≡ (ok images, w')) × ((length images == 100) ≡ false)
  HubServes url page w (images ∷ (next ∷ rest)) w' =
      (w₁ : W) × (hub_page h url page w ≡ (ok images, w₁))
      × ((length images == 100) ≡ true)
      × HubServes url (suc page) w₁ (next ∷ rest) w'

  hub_pages_lem :
      (url : String) (pages : List (List Image)) (fuel page : ℕ) (results : List Image) (w w' : W)
      → length pages ≤ fuel
      → HubServes url page w pages w'
      → hub_pages h fuel url page results w ≡ some (ok (results ++ concat pages), w')
  unfolding hub_pages after_images
  hub_pages_lem url [] fuel page results w w' enough serves = elim serves [ ]
  hub_pages_lem url (images ∷ pages) zero page results w w' enough serves = absurd (omega arith)
  hub_pages_lem url (images ∷ []) (suc fuel) page results w w' enough (found, last) =
      rw (found, last, append-nil) refl
  hub_pages_lem url (images ∷ (next ∷ rest)) (suc fuel) page results w w' enough
        (w₁, found, whole, serves) =
      rw (found, whole)
        (hub_pages_lem url (next ∷ rest) fuel (suc page) (results ++ images) w₁ w' (omega arith)
            serves
          ∙ ap (λ all. some (ok all, w')) (append_assoc results images (concat (next ∷ rest))))

  -- If Docker Hub answers with pages of which all but the last are full, then with fuel for each of
  -- them getHubVersions returns the images of all pages, in order.
  pub get_hub_versions_lem :
      (url : String) (pages : List (List Image)) (fuel : ℕ) (w w' : W)
      → length pages ≤ fuel
      → HubServes url 1 w pages w'
      → get_hub_versions h fuel url w ≡ some (ok (payload (concat pages)), w')
  unfolding get_hub_versions
  get_hub_versions_lem url pages fuel w w' enough serves =
      ap (as_lister payload) (hub_pages_lem url pages fuel 1 [] w w' enough serves)

  -- A registry answers with these pages from the given path on: each but the last has the path of the
  -- next in its Link header.
  abbrev pub RegistryServes :
      String → String → String → String → W → List (List String) → W → Type 0
  RegistryServes scheme host token path w [] w' = ⊥
  RegistryServes scheme host token path w (tags ∷ []) w' =
      registry_page h scheme host token path w ≡ (ok (tags, ""), w')
  RegistryServes scheme host token path w (tags ∷ (next ∷ rest)) w' =
      (w₁ : W) × (path' : String) × (registry_page h scheme host token path w
        ≡ (ok (tags, path'), w₁))
      × (str_eq path' "" ≡ false)
      × RegistryServes scheme host token path' w₁ (next ∷ rest) w'

  registry_pages_lem :
      (scheme host token : String) (pages : List (List String)) (fuel : ℕ) (path : String)
      (results : List String) (w w' : W)
      → length pages ≤ fuel
      → RegistryServes scheme host token path w pages w'
      → registry_pages h fuel scheme host token path results w
        ≡ some (ok (results ++ concat pages), w')
  unfolding registry_pages after_tags
  registry_pages_lem scheme host token [] fuel path results w w' enough serves = elim serves [ ]
  registry_pages_lem scheme host token (tags ∷ pages) zero path results w w' enough serves =
      absurd (omega arith)
  registry_pages_lem scheme host token (tags ∷ []) (suc fuel) path results w w' enough found =
      rw (found, append-nil) refl
  registry_pages_lem scheme host token (tags ∷ (next ∷ rest)) (suc fuel) path results w w' enough
        (w₁, path', found, further, serves) =
      rw (found, further)
        (registry_pages_lem scheme host token (next ∷ rest) fuel path' (results ++ tags) w₁ w'
            (omega arith) serves
          ∙ ap (λ all. some (ok all, w')) (append_assoc results tags (concat (next ∷ rest))))

  -- If the first answer, with a token where the registry asks for one, has tags and the path of a next
  -- page, and the registry answers with pages from there on, then with fuel for each of these
  -- getRegistryVersions returns the tags of all pages, in order.
  pub get_registry_versions_lem :
      (url scheme host token path : String) (tags : List String) (pages : List (List String))
      (fuel : ℕ) (w w₁ w' : W)
      → first_page h url w ≡ (ok (tags, path, token, scheme, host), w₁)
      → str_eq path "" ≡ false
      → length pages ≤ fuel
      → RegistryServes scheme host token path w₁ pages w'
      → get_registry_versions h fuel url w ≡ some (ok (registry_result (tags ++ concat pages)), w')
  unfolding get_registry_versions after_first
  get_registry_versions_lem url scheme host token path tags pages fuel w w₁ w' first further enough
        serves =
      rw (first, further)
        (ap (as_lister registry_result)
          (registry_pages_lem scheme host token pages fuel path tags w₁ w' enough serves))
