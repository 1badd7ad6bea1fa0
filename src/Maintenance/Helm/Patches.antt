-- ===== src/Maintenance/Helm/Patches.antt =====
-- Which version semVerPatches of pkg/maintenance/helm/helmpatcher.go chooses.
use appcat.Common.{
  suc, ◌≤◌, ◌<◌, ltb, ◌==◌, Bool, true, false, ◌&&◌, String, List, [], ◌∷◌, Option, none, some, All,
  ◌≡◌, refl, ap, sym, subst, ◌∙◌, arith, ◌⊎◌, inl, inr, if◌then◌else◌,
}
use appcat.Common.Filters.{IsIn}
use appcat.Common.Results.{ok}
use appcat.Maintenance.Semver.{Version, Semver}
use appcat.Maintenance.Helm.{
  VersionLister, registry_result, get_versions, next_minor, next_patch, has_pre, consider, newest,
  newest_tag, sem_ver_patches, sem_ver_minor_and_patches,
}

-- `n` is not lower than `v` within the major version, and in the same minor one if only patches count.
abbrev pub IsUpgrade : Bool → Version → Version → Type 0
IsUpgrade check_minor v n =
    (n.major ≡ v.major)
    × ((v.minor < n.minor) × (check_minor ≡ true) ⊎ (n.minor ≡ v.minor) × (v.patch ≤ n.patch))

-- The version could not take the place of `n`.
abbrev pub IsBeaten : Bool → Bool → Version → Version → Type 0
IsBeaten ignore_build check_minor n v =
    v.major ≡ n.major
    → (check_minor ≡ true → v.minor ≤ n.minor)
      × (v.minor ≡ n.minor → ignore_build && has_pre v ≡ false → v.patch ≤ n.patch)

consider-IsUpgrade :
    (ignore_build check_minor : Bool) (o : Option Version) (n : Version)
    → IsUpgrade check_minor n (consider ignore_build check_minor o n)
unfolding consider next_patch next_minor
consider-IsUpgrade ignore_build check_minor none n = ground arith
consider-IsUpgrade ignore_build check_minor (some v) n = ground arith

consider-IsBeaten :
    (ignore_build check_minor : Bool) (v n : Version)
    → IsBeaten ignore_build check_minor (consider ignore_build check_minor (some v) n) v
unfolding consider next_patch next_minor
consider-IsBeaten ignore_build check_minor v n same = ground arith

-- What is beaten stays so when the candidate is upgraded.
IsUpgrade-IsBeaten :
    (ignore_build check_minor : Bool) (n n' u : Version)
    → IsUpgrade check_minor n n'
    → IsBeaten ignore_build check_minor n u
    → IsBeaten ignore_build check_minor n' u
IsUpgrade-IsBeaten ignore_build check_minor n n' u (major, inl (higher, minors)) beaten same =
    let (below, patches) = beaten (same ∙ major) in
    let low = below minors in (λ _. omega arith, λ equal release. absurd (omega arith))
IsUpgrade-IsBeaten ignore_build check_minor n n' u (major, inr (minor, patch)) beaten same =
    let (below, patches) = beaten (same ∙ major) in
    (
      λ minors. let low = below minors in omega arith,
      λ equal release. let low = patches (equal ∙ minor) release in omega arith,
    )

IsUpgrade-trans :
    (check_minor : Bool) (a b d : Version)
    → IsUpgrade check_minor a b
    → IsUpgrade check_minor b d
    → IsUpgrade check_minor a d
IsUpgrade-trans check_minor a b d (major, inl (h, m)) (major', inl (h', m')) =
    (major' ∙ major, inl (omega arith, m))
IsUpgrade-trans check_minor a b d (major, inl (h, m)) (major', inr (e', p')) =
    (major' ∙ major, inl (omega arith, m))
IsUpgrade-trans check_minor a b d (major, inr (e, p)) (major', inl (h', m')) =
    (major' ∙ major, inl (omega arith, m'))
IsUpgrade-trans check_minor a b d (major, inr (e, p)) (major', inr (e', p')) =
    (major' ∙ major, inr (e' ∙ e, omega arith))

IsUpgrade-refl : (check_minor : Bool) (v : Version) → IsUpgrade check_minor v v
IsUpgrade-refl check_minor v = (refl, inr (refl, omega arith))

-- The version of a listed tag, or the one to start with.
abbrev pub IsListed : Semver → List String → Version → Version → Type 0
IsListed sv versions start n =
    (n ≡ start) ⊎ ((res : String) × IsIn res versions × (sv.new res ≡ some n))

one_of {ℓ} :
    {A : Type ℓ} (b : Bool) (x y : A) → ((if b then x else y) ≡ y) ⊎ ((if b then x else y) ≡ x)
one_of true x y = inr refl
one_of false x y = inl refl

next_patch-cases :
    (ignore_build : Bool) (v m : Version)
    → (next_patch ignore_build v m ≡ m) ⊎ (next_patch ignore_build v m ≡ v)
unfolding next_patch
next_patch-cases ignore_build v m = elim (one_of (ignore_build && has_pre v) m v) [
  | inl newer ↦
      rw newer (one_of (v.major == m.major && v.minor == m.minor && ltb m.patch v.patch) v m)
  | inr same ↦ inl (
      rw same (elim (one_of (v.major == m.major && v.minor == m.minor && ltb m.patch v.patch) m m) [
        | inl e ↦ e
        | inr e ↦ e
      ]))
]

next_minor-cases :
    (check_minor : Bool) (v n : Version)
    → (next_minor check_minor v n ≡ n) ⊎ (next_minor check_minor v n ≡ v)
unfolding next_minor
next_minor-cases check_minor v n =
    one_of (check_minor && v.major == n.major && ltb n.minor v.minor) v n

consider-cases :
    (ignore_build check_minor : Bool) (v n : Version)
    → (consider ignore_build check_minor (some v) n ≡ n)
      ⊎ (consider ignore_build check_minor (some v) n ≡ v)
unfolding consider
consider-cases ignore_build check_minor v n =
    elim (next_patch-cases ignore_build v (next_minor check_minor v n)) [
      | inr patched ↦ inr patched
      | inl kept ↦ elim (next_minor-cases check_minor v n) [
        | inl same ↦ inl (kept ∙ same)
        | inr raised ↦ inr (kept ∙ raised)
      ]
    ]

-- What the loop returns: a listed version or the first one, an upgrade of the first one, and one that
-- beats all listed versions.
abbrev pub IsNewest : Semver → Bool → Bool → List String → Version → Version → Type 0
IsNewest sv ignore_build check_minor versions start n =
    IsListed sv versions start n
    × IsUpgrade check_minor start n
    × All (λ res. (v : Version) → sv.new res ≡ some v → IsBeaten ignore_build check_minor n v)
        versions

IsListed-later :
    (sv : Semver) (res : String) (versions : List String) (start n : Version)
    → ((r : String) × IsIn r versions × (sv.new r ≡ some n))
    → IsListed sv (res ∷ versions) start n
IsListed-later sv res versions start n (r, (k, at), is_n) = inr (r, (suc k, at), is_n)

-- A version of the rest of the list, or the one that the first tag leads to.
behind :
    (sv : Semver) (ignore_build check_minor : Bool) (res : String) (versions : List String)
    (start n : Version) (o : Option Version)
    → sv.new res ≡ o
    → IsListed sv versions (consider ignore_build check_minor o start) n
    → IsListed sv (res ∷ versions) start n
unfolding consider
behind sv ignore_build check_minor res versions start n o is_o (inr later) =
    IsListed-later sv res versions start n later
behind sv ignore_build check_minor res versions start n none is_o (inl same) = inl same
behind sv ignore_build check_minor res versions start n (some v) is_o (inl same) =
    elim (consider-cases ignore_build check_minor v start) [
      | inl kept ↦ inl (same ∙ kept)
      | inr taken ↦ inr (res, (0, refl), is_o ∙ ap some (sym (same ∙ taken)))
    ]

newest_lem :
    (sv : Semver) (ignore_build check_minor : Bool) (versions : List String) (start : Version)
    → IsNewest sv ignore_build check_minor versions start
        (newest sv ignore_build check_minor versions start)
unfolding newest
newest_lem sv ignore_build check_minor [] start = (inl refl, IsUpgrade-refl check_minor start, tt)
newest_lem sv ignore_build check_minor (res ∷ versions) start =
    let next = consider ignore_build check_minor (sv.new res) start in
    let final = newest sv ignore_build check_minor versions next in
    let up = consider-IsUpgrade ignore_build check_minor (sv.new res) start in
    let (listed, further, beats) = newest_lem sv ignore_build check_minor versions next in
    (
      behind sv ignore_build check_minor res versions start final (sv.new res) refl listed,
      IsUpgrade-trans check_minor start next final up further,
      (
        λ v is_v. IsUpgrade-IsBeaten ignore_build check_minor next final v further (
            subst
              (λ o. IsBeaten ignore_build check_minor (consider ignore_build check_minor o start) v)
              (sym is_v) (consider-IsBeaten ignore_build check_minor v start)),
        beats,
      ),
    )

pub sem_ver_patches_lem :
    (sv : Semver) (ignore_build check_minor : Bool) (results : VersionLister) (tag : String)
    (current : Version)
    → sv.parse_tolerant tag ≡ some current
    → (n : Version) × (sem_ver_patches sv ignore_build check_minor results tag
        ≡ (if sv.eq current n then ok tag else ok (sv.print n)))
      × IsNewest sv ignore_build check_minor (get_versions results) current n
unfolding sem_ver_patches newest_tag
sem_ver_patches_lem sv ignore_build check_minor results tag current parses = (
  newest sv ignore_build check_minor (get_versions results) current,
  rw parses refl,
  newest_lem sv ignore_build check_minor (get_versions results) current,
)

consider-higher_minor :
    (v n : Version) → v.major ≡ n.major → n.minor < v.minor → consider true true (some v) n ≡ v
unfolding consider next_patch next_minor
consider-higher_minor v n major minor =
    let same : (v.major == n.major) ≡ true = ground arith in
    let less : ltb n.minor v.minor ≡ true = ground arith in
    let stays : ltb v.patch v.patch ≡ false = ground arith in
    let equal : (v.major == v.major) ≡ true = ground arith in
    let equal' : (v.minor == v.minor) ≡ true = ground arith in
    rw (same, less, equal, equal', stays) refl

-- SemVerMinorAndPatches that ignores pre-releases does not ignore those with a higher minor version:
-- the only tag that is listed is taken if its version has the same major and a higher minor version,
-- whatever else it has.
pub sem_ver_minor_and_patches_lem :
    (sv : Semver) (tag name : String) (current v : Version)
    → sv.parse_tolerant tag ≡ some current
    → sv.new name ≡ some v
    → v.major ≡ current.major
    → current.minor < v.minor
    → sv.eq current v ≡ false
    → sem_ver_minor_and_patches sv true (registry_result (name ∷ [])) tag ≡ ok (sv.print v)
unfolding sem_ver_minor_and_patches sem_ver_patches newest_tag newest get_versions
sem_ver_minor_and_patches_lem sv tag name current v parses listed major minor differs =
    rw (parses, listed, consider-higher_minor v current major minor, differs) refl
