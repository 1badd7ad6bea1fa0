-- ===== src/Common/Maps.antt =====
-- Writes to a Go map, and the filling in of keys that are missing.
use Prim.Native.String.{String}
use mathlib.Core.Path.{◌≡◌, refl, sym, ap, ◌∙◌, subst}
use mathlib.Core.Logic.{inl, inr}
use mathlib.Core.Bool.{false}
use mathlib.Core.Option.{Option, none, some}
use mathlib.Core.List.{List, [], ◌∷◌}
use text.Mathlib.Text.{◌==◌ as str_eq}
use text.Mathlib.TextEquality.{eq_iff}
use text.Mathlib.TextPositions.{eq_refl}
use appcat.Common.Tests.{if◌then◌else◌, Bool-cases, Option-cases}
use appcat.Common.Results.{lookup}

-- m[key] = value.
unfoldable pub put : String → String → List (String × String) → List (String × String)
put key value [] = (key, value) ∷ []
put key value ((k, v) ∷ annotations) =
    let rest = put key value annotations in
    if str_eq k key then (k, value) ∷ annotations else (k, v) ∷ rest

pub lookup-put_self : (k v : String) (m : List (String × String)) → lookup k (put k v m) ≡ some v
unfolding put
lookup-put_self k v [] = rw (eq_refl k) refl
lookup-put_self k v ((j, u) ∷ m) = elim (Bool-cases (str_eq j k)) [
  | inl same ↦ rw (same, put) (rw same refl)
  | inr other ↦ rw (other, put) (rw other (lookup-put_self k v m))
]

pub lookup-put_other :
    (k j v : String) (m : List (String × String))
    → str_eq k j ≡ false
    → lookup j (put k v m) ≡ lookup j m
unfolding put
lookup-put_other k j v [] differs = rw differs refl
lookup-put_other k j v ((i, u) ∷ m) differs = elim (Bool-cases (str_eq i k)) [
  | inl same ↦
      let apart : str_eq i j ≡ false = ap (λ x. str_eq x j) ((eq_iff i k).0 same) ∙ differs in
      rw (same, put) (rw apart refl)
  | inr other ↦
      rw (other, put)
        (ap (λ r. if str_eq i j then some u else r) (lookup-put_other k j v m differs))
]

unfoldable pub put_missing : String → String → List (String × String) → List (String × String)
put_missing k v m = elim (lookup k m) [ none ↦ put k v m | some u ↦ m ]

unfoldable pub fill : List (String × String) → List (String × String) → List (String × String)
fill [] m = m
fill ((k, v) ∷ defaults) m = fill defaults (put_missing k v m)

abbrev pub or_else : Option String → Option String → Option String
or_else none o = o
or_else (some v) o = some v

put_missing_new :
    (k v : String) (m : List (String × String)) → lookup k m ≡ none → put_missing k v m ≡ put k v m
unfolding put_missing
put_missing_new k v m missing = rw (missing, put_missing) refl

put_missing_old :
    (k v u : String) (m : List (String × String)) → lookup k m ≡ some u → put_missing k v m ≡ m
unfolding put_missing
put_missing_old k v u m there = rw (there, put_missing) refl

lookup-put_missing :
    (k j v : String) (m : List (String × String)) (later : Option String)
    → or_else (lookup j (put_missing k v m)) later
      ≡ or_else (lookup j m) (if str_eq k j then some v else later)
lookup-put_missing k j v m later = elim (Option-cases (lookup k m)) [
  | inr (u, there) ↦
      ap (λ z. or_else (lookup j z) later) (put_missing_old k v u m there)
      ∙ elim (Bool-cases (str_eq k j)) [
        | inl same ↦
            let at_j : lookup j m ≡ some u =
              subst (λ z. lookup z m ≡ some u) ((eq_iff k j).0 same) there in
            rw at_j refl
        | inr differs ↦ rw differs refl
      ]
  | inl missing ↦
      ap (λ z. or_else (lookup j z) later) (put_missing_new k v m missing)
      ∙ elim (Bool-cases (str_eq k j)) [
        | inl same ↦
            let k_is_j = (eq_iff k j).0 same in
            let none_at_j : lookup j m ≡ none = subst (λ z. lookup z m ≡ none) k_is_j missing in
            let put_at_j : lookup j (put k v m) ≡ some v =
              subst (λ z. lookup z (put k v m) ≡ some v) k_is_j (lookup-put_self k v m) in
            rw (same, none_at_j, put_at_j) refl
        | inr differs ↦ rw (lookup-put_other k j v m differs, differs) refl
      ]
]

or_else-none : (o : Option String) → or_else o none ≡ o
or_else-none none = refl
or_else-none (some v) = refl

-- What was there stays, and a key that was missing has its first default.
pub lookup-fill :
    (j : String) (defaults m : List (String × String))
    → lookup j (fill defaults m) ≡ or_else (lookup j m) (lookup j defaults)
unfolding fill
lookup-fill j [] m = sym (or_else-none (lookup j m))
lookup-fill j ((k, v) ∷ defaults) m =
    lookup-fill j defaults (put_missing k v m) ∙ lookup-put_missing k j v m (lookup j defaults)

-- Every key of the list has a value.
abbrev HasAll : List (String × String) → List (String × String) → Type 0
HasAll [] m = Unit
HasAll ((k, v) ∷ defaults) m = ((u : String) × (lookup k m ≡ some u)) × HasAll defaults m

fill_nothing : (defaults m : List (String × String)) → HasAll defaults m → fill defaults m ≡ m
unfolding fill
fill_nothing [] m has = refl
fill_nothing ((k, v) ∷ defaults) m ((u, there), rest) =
    ap (fill defaults) (put_missing_old k v u m there) ∙ fill_nothing defaults m rest

or_else-some : (o : Option String) (v : String) → (u : String) × (or_else o (some v) ≡ some u)
or_else-some none v = (v, refl)
or_else-some (some u) v = (u, refl)

fill-HasAll :
    (defaults m after : List (String × String)) → fill defaults m ≡ after → HasAll defaults after
unfolding fill
fill-HasAll [] m after same = tt
fill-HasAll ((k, v) ∷ defaults) m after same =
    let (u, is) = or_else-some (lookup k m) v in
    (
      (u, ap (lookup k) (sym same) ∙ lookup-fill k ((k, v) ∷ defaults) m ∙ rw (eq_refl k) is),
      fill-HasAll defaults (put_missing k v m) after same,
    )

-- A second filling in changes nothing.
pub fill-fill :
    (defaults m : List (String × String)) → fill defaults (fill defaults m) ≡ fill defaults m
fill-fill defaults m =
    fill_nothing defaults (fill defaults m) (fill-HasAll defaults m (fill defaults m) refl)
