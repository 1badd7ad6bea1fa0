-- ===== src/Maintenance/Release/Latest.antt =====
-- Which revision getLatestRevision of pkg/maintenance/release/release.go chooses.
use appcat.Common.{
  ℕ, zero, suc, ◌+◌, ◌≤◌, ◌<◌, ltb, leb, Bool, true, List, [], ◌∷◌, some, get_elem?, All, All-mono,
  keep_if, ◌≡◌, refl, ap, arith, ◌⊎◌, inl, inr, Bool-cases, le→leb, subst, sym, if◌then◌else◌,
}
use appcat.Common.Filters.{IsIn, keep_if-IsIn, All-keep_if}
use appcat.Common.Results.{ok}
use appcat.Maintenance.Semver.{Semver}
use appcat.Maintenance.Release.{
  CompositionRevision, VersionHandler, Client, filter_revisions_by_age, highest, latest_of,
  choose_latest, chosen, get_latest_revision,
}

-- No revision in the list is higher.
abbrev pub IsHighest : CompositionRevision → List CompositionRevision → Type 0
IsHighest r revisions = All (λ x. x.revision ≤ r.revision) revisions

IsIn-skip_second :
    (a x y : CompositionRevision) (xs : List CompositionRevision)
    → IsIn a (x ∷ xs)
    → IsIn a (x ∷ y ∷ xs)
IsIn-skip_second a x y xs (zero, at) = (0, at)
IsIn-skip_second a x y xs (suc k, at) = (suc (suc k), at)

abbrev IsHighestIn : CompositionRevision → List CompositionRevision → Type 0
IsHighestIn r revisions = IsIn r revisions × IsHighest r revisions

highest_lem :
    (latest : CompositionRevision) (items : List CompositionRevision)
    → IsHighestIn (highest latest items) (latest ∷ items)
unfolding highest
highest_lem latest [] = ((0, refl), (omega arith, tt))
highest_lem latest (item ∷ items) = elim (Bool-cases (ltb latest.revision item.revision)) [
  | inl higher ↦
      let ((k, at), (best, rest)) = highest_lem item items in
      subst (λ h. IsHighestIn h (latest ∷ item ∷ items))
        (ap (λ b. highest (if b then item else latest) items) (sym higher))
        ((suc k, at), (ground arith, (best, rest)))
  | inr lower ↦
      let (inside, (best, rest)) = highest_lem latest items in
      subst (λ h. IsHighestIn h (latest ∷ item ∷ items))
        (ap (λ b. highest (if b then item else latest) items) (sym lower))
        (IsIn-skip_second _ latest item items inside, (best, (ground arith, rest)))
]

-- The revision's age reaches the grace period.
abbrev pub IsOld : ℕ → ℕ → CompositionRevision → Type 0
IsOld now min_age r = r.creation_timestamp + min_age ≤ now

-- The highest of the revisions that are old enough or, if there is none, the highest of all.
abbrev pub IsLatest : ℕ → ℕ → List CompositionRevision → CompositionRevision → Type 0
IsLatest now min_age revisions r =
    IsIn r revisions
    × ((IsOld now min_age r × All (λ x. IsOld now min_age x → x.revision ≤ r.revision) revisions)
        ⊎ (All (λ x. now < x.creation_timestamp + min_age) revisions × IsHighest r revisions))

abbrev is_old : ℕ → ℕ → CompositionRevision → Bool
is_old now min_age r = leb (r.creation_timestamp + min_age) now

not_old :
    (now min_age : ℕ) (r : CompositionRevision)
    → (leb (r.creation_timestamp + min_age) now ≡ true → ⊥)
    → now < r.creation_timestamp + min_age
not_old now min_age r never = elim (Bool-cases (leb (r.creation_timestamp + min_age) now)) [
  | inl old ↦ absurd (never old)
  | inr young ↦ ground arith
]

latest_of_lem :
    (now min_age : ℕ) (r : CompositionRevision) (rs eligible : List CompositionRevision)
    → filter_revisions_by_age now min_age (r ∷ rs) ≡ eligible
    → (latest : CompositionRevision) × (latest_of eligible (r ∷ rs) ≡ some latest)
      × IsLatest now min_age (r ∷ rs) latest
unfolding latest_of filter_revisions_by_age
latest_of_lem now min_age r rs [] none_old =
    let (inside, best) = highest_lem r rs in
    let none_passes : All (λ x. ⊥) (keep_if (is_old now min_age) (r ∷ rs)) =
      subst (All (λ x. ⊥)) (sym none_old) tt in
    let young =
      All-mono (λ x. is_old now min_age x ≡ true → ⊥) (λ x. now < x.creation_timestamp + min_age)
        (λ x never. not_old now min_age x never) (r ∷ rs)
        (All-keep_if (λ x. ⊥) (is_old now min_age) (r ∷ rs) none_passes) in
    (highest r rs, refl, (inside, inr (young, best)))
latest_of_lem now min_age r rs (e ∷ eligible) some_old =
    let ((k, at), best) = highest_lem e eligible in
    let latest = highest e eligible in
    let (inside, passes) =
      keep_if-IsIn (is_old now min_age) (r ∷ rs) k
        (subst (λ xs. get_elem? xs k ≡ some latest) (sym some_old) at) in
    let rest =
      All-keep_if (λ x. x.revision ≤ latest.revision) (is_old now min_age) (r ∷ rs)
        (subst (IsHighest latest) (sym some_old) best) in
    (
      latest,
      refl,
      (
        inside,
        inl (
          ground arith,
          All-mono _ (λ x. IsOld now min_age x → x.revision ≤ latest.revision)
              (λ x top old. top (le→leb _ _ old)) (r ∷ rs) rest,
        ),
      ),
    )

-- If the API lists revisions, the one that is chosen is the highest of those whose age reaches the
-- grace period or, if no age does, the highest of all.
pub get_latest_revision_lem :
    {W : Type 0} (c : Client W) (sv : Semver) (vh : VersionHandler) (min_age : ℕ) (w w' : W)
    (r : CompositionRevision) (rs : List CompositionRevision)
    → c.list_revisions vh.service_id_label vh.service_id w ≡ (ok (r ∷ rs), w')
    → (latest : CompositionRevision) × (get_latest_revision c sv vh min_age w
        ≡ (ok latest, (c.now w').1))
      × IsLatest (c.now w').0 min_age (r ∷ rs) latest
unfolding get_latest_revision choose_latest chosen
get_latest_revision_lem c sv vh min_age w w' r rs listed =
    let (latest, found, best) = latest_of_lem (c.now w').0 min_age r rs _ refl in
    (latest, rw listed (ap (chosen c sv vh w' (c.now w').1) found), best)
