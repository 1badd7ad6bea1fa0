-- ===== src/Maintenance/Postgresql/Versions.antt =====
-- Which version GetLatestMinorVersion of pkg/auth/stackgres/client.go picks.
use appcat.Common.{
  ◌==◌, true, false, String, List, [], ◌∷◌, Option, none, some, ◌≡◌, refl, sym, ap, ◌∙◌, subst, ◌⊎◌,
  inl, inr, Bool-cases,
}
use mathlib.Core.Option.{none-ne-some, some-injective}
use mathlib.Core.Bool.{true≢false}
use appcat.Maintenance.Postgresql.{
  Library, add_valid, newest_minor, newest_minor_of, valid_versions, newer,
  get_latest_minor_version,
}

abbrev pub In : {A : Type 0} → A → List A → Type 0
In x [] = ⊥
In x (y ∷ ys) = (y ≡ x) ⊎ In x ys

-- What the code relies on of the version library and of package sort.
pub record IsSorting {V : Type 0} (lib : Library V) : Type 0 where
  pub irreflexive : (a : V) → lib.less_than a a ≡ false
  -- What is at least a version that is at least another one is at least that one.
  pub at_least_trans :
      (a b c : V)
      → lib.less_than a b ≡ false
      → lib.less_than b c ≡ false
      → lib.less_than a c ≡ false
  pub kept : (vs : List V) (v : V) → In v (lib.sort_reverse vs) → In v vs
  pub all_there : (vs : List V) (v : V) → In v vs → In v (lib.sort_reverse vs)
  pub descending :
      (vs rest : List V) (v : V)
      → lib.sort_reverse vs ≡ v ∷ rest
      → (u : V) → In u rest
      → lib.less_than v u ≡ false

module _ {V : Type 0} (lib : Library V) where
  -- A listed version that counts for the current one.
  abbrev pub Counts : V → List String → V → Type 0
  Counts current versions v =
      (t : String) × In t versions
      × (lib.new_version t ≡ some v)
      × ((lib.major v == lib.major current) ≡ true)

  Counts-cons :
      (current : V) (t : String) (versions : List String) (v : V)
      → Counts current versions v
      → Counts current (t ∷ versions) v
  Counts-cons current t versions v (s, there, parsed, same) = (s, inr there, parsed, same)

  -- The answer is the current version or a listed one that counts, and nothing that counts is newer.
  abbrev pub IsLatest : V → List String → V → Type 0
  IsLatest current versions v =
      ((v ≡ current) ⊎ Counts current versions v)
      × ((u : V) → Counts current versions u → lib.less_than v u ≡ false)

  -- The loop collects the versions that count, and no others.
  abbrev Collects : V → List String → List V → Type 0
  Collects current versions vs =
      ((v : V) → In v vs → Counts current versions v)
      × ((v : V) → Counts current versions v → In v vs)

  only_first :
      (current : V) (t : String) (versions : List String) (v u : V)
      → lib.new_version t ≡ some v
      → Counts current (t ∷ versions) u
      → (v ≡ u) ⊎ Counts current versions u
  only_first current t versions v u parsed (s, inl first, reads, same) =
      inl (some-injective _ _ (sym parsed ∙ ap lib.new_version first ∙ reads))
  only_first current t versions v u parsed (s, inr there, reads, same) = inr (s, there, reads, same)

  with_version :
      (current : V) (t : String) (versions : List String) (v : V) (us : List V)
      → lib.new_version t ≡ some v
      → (lib.major v == lib.major current) ≡ true
      → Collects current versions us
      → Collects current (t ∷ versions) (v ∷ us)
  with_version current t versions v us reads same (sound, complete) = (
    λ u h. elim h [
      | inl first ↦ subst (Counts current (t ∷ versions)) first (t, inl refl, reads, same)
      | inr later ↦ Counts-cons current t versions u (sound u later)
    ],
    λ u h. elim (only_first current t versions v u reads h) [
      | inl first ↦ inl first
      | inr later ↦ inr (complete u later)
    ],
  )

  add_valid-Collects :
      (current : V) (t : String) (versions : List String) (parsed : Option V)
      (rest : Option (List V)) (vs : List V)
      → lib.new_version t ≡ parsed
      → ((us : List V) → rest ≡ some us → Collects current versions us)
      → add_valid lib current parsed rest ≡ some vs
      → Collects current (t ∷ versions) vs
  unfolding add_valid
  add_valid-Collects current t versions none rest vs reads before e = absurd (none-ne-some _ e)
  add_valid-Collects current t versions (some v) none vs reads before e = absurd (none-ne-some _ e)
  add_valid-Collects current t versions (some v) (some us) vs reads before e =
      let (sound, complete) = before us refl in
      elim (Bool-cases (lib.major v == lib.major current)) [
        | inl same ↦
            subst (Collects current (t ∷ versions)) (some-injective _ _ (rw same at e))
              (with_version current t versions v us reads same (sound, complete))
        | inr apart ↦ subst (Collects current (t ∷ versions)) (some-injective _ _ (rw apart at e)) (
          λ u h. Counts-cons current t versions u (sound u h),
          λ u h. elim (only_first current t versions v u reads h) [
            | inl first ↦ absurd (
                true≢false
                  (sym (h.3) ∙ ap (λ z. lib.major z == lib.major current) (sym first) ∙ apart))
            | inr later ↦ complete u later
          ],
        )
      ]

  valid_versions-Collects :
      (current : V) (versions : List String) (vs : List V)
      → valid_versions lib current versions ≡ some vs
      → Collects current versions vs
  unfolding valid_versions
  valid_versions-Collects current [] vs e =
      subst (Collects current []) (some-injective _ _ e) (λ v h. absurd h, λ v h. absurd h.1)
  valid_versions-Collects current (t ∷ versions) vs e =
      add_valid-Collects current t versions (lib.new_version t)
        (valid_versions lib current versions) vs refl (valid_versions-Collects current versions) e

  -- The head of the sorted list against the current version.
  newer-IsLatest :
      (current : V) (versions : List String) (vs sorted : List V)
      → IsSorting lib
      → Collects current versions vs
      → lib.sort_reverse vs ≡ sorted
      → (v : V) × (newer lib current sorted ≡ lib.original v) × IsLatest current versions v
  unfolding newer
  newer-IsLatest current versions vs [] sorting (sound, complete) e = (
    current,
    refl,
    (inl refl, λ u h. absurd (subst (In u) e (sorting.all_there vs u (complete u h)))),
  )
  newer-IsLatest current versions vs (v ∷ rest) sorting (sound, complete) e =
      let top : (u : V) → Counts current versions u → lib.less_than v u ≡ false = λ u h.
        elim (subst (In u) e (sorting.all_there vs u (complete u h))) [
          | inl first ↦ subst (λ z. lib.less_than v z ≡ false) first (sorting.irreflexive v)
          | inr later ↦ sorting.descending vs rest v e u later
        ] in
      elim (Bool-cases (lib.less_than current v)) [
        | inl newer_one ↦ (
          v,
          rw newer_one refl,
          (inr (sound v (sorting.kept vs v (subst (In v) (sym e) (inl refl)))), top),
        )
        | inr at_least ↦ (
          current,
          rw at_least refl,
          (inl refl, λ u h. sorting.at_least_trans current v u at_least (top u h)),
        )
      ]

  -- If the current version and all listed ones are well formed, then the search answers with the text of
  -- the latest version: the current one or a listed one with its major version, such that no listed
  -- version with that major version is newer.
  pub get_latest_minor_version_lem :
      (vers : String) (current : V) (versions : List String) (vs : List V)
      → IsSorting lib
      → lib.new_version vers ≡ some current
      → valid_versions lib current versions ≡ some vs
      → (v : V) × (get_latest_minor_version lib vers (some versions) ≡ some (lib.original v))
        × IsLatest current versions v
  unfolding get_latest_minor_version newest_minor_of newest_minor
  get_latest_minor_version_lem vers current versions vs sorting parsed collected =
      let (v, answer, latest) =
        newer-IsLatest current versions vs (lib.sort_reverse vs) sorting
          (valid_versions-Collects current versions vs collected) refl in
      (v, rw (parsed, collected) (ap some answer), latest)
