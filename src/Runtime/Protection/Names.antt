-- ===== src/Runtime/Protection/Names.antt =====
-- Lists of names and the text that has them with commas between.
use Prim.Native.Char.{code}
use Prim.Native.String.{◌++◌ as text_append}
use text.Mathlib.TextLemmas.{cons-append, nil-append, append-nil}
use appcat.Common.{
  ℕ, ◌==◌, Bool, true, false, ◌||◌, not, String, str_eq, eq_iff, List, [], ◌∷◌, ◌++◌, any, All,
  All-of_forall, ◌≡◌, refl, ap, ◌∙◌, inl, inr, Bool-cases, arith, if◌then◌else◌,
}
use mathlib.Core.List.{append-nil as list_append-nil}
use appcat.Common.Text.{split, split_from, join}
use appcat.Runtime.Naming.{all_chars}
use appcat.Runtime.Naming.Conforms.{cons_some}
use appcat.Runtime.Protection.{remove_seen, remove_duplicate}

abbrev pub not_comma : ℕ → Bool
not_comma c = not (c == b',')

-- A name that can stand in an annotation.
pub record IsName (s : String) : Type 0 where
  pub named : str_eq s "" ≡ false
  pub one : all_chars not_comma s ≡ true

-- No name twice.
abbrev pub Distinct : List String → Type 0
Distinct [] = Unit
Distinct (n ∷ names) = (any (str_eq n) names ≡ false) × Distinct names

split_from-append :
    (s t : String)
    → all_chars not_comma s ≡ true
    → split_from b',' (text_append s t)
      ≡ (text_append s (split_from b',' t).0, (split_from b',' t).1)
unfolding split_from all_chars
split_from-append String.[] t free = rw (nil-append t, nil-append (split_from b',' t).0) refl
split_from-append (String.◌∷◌ c s) t free =
    let differs : (code c == b',') ≡ false = ground arith in
    let rest = split_from-append s t (ground arith) in
    rw (cons-append c s t, cons-append c s (split_from b',' t).0) (rw (rest, differs) refl)

split_from-comma : (t : String) → split_from b',' (text_append "," t) ≡ ("", split b',' t)
unfolding split split_from
split_from-comma t =
    let opened : text_append "," t ≡ String.◌∷◌ "," t =
      cons-append "," "" t ∙ ap (String.◌∷◌ ",") (nil-append t) in
    rw opened refl

split-name : (n : String) → all_chars not_comma n ≡ true → split b',' n ≡ n ∷ []
unfolding split split_from
split-name n free =
    let whole = split_from-append n "" free in
    let same : split_from b',' n ≡ (n, []) = rw (append-nil n) at whole in ap (λ p. p.0 ∷ p.1) same

-- The names that are joined are those that are read.
pub split-join :
    (n : String) (names : List String)
    → All IsName (n ∷ names)
    → split b',' (join "," (n ∷ names)) ≡ n ∷ names
unfolding join split
split-join n [] (good, _) = split-name n good.one
split-join n (m ∷ names) (good, rest) =
    let tail = join "," (m ∷ names) in
    let parts : split_from b',' (text_append n (text_append "," tail)) ≡ (n, split b',' tail) =
      split_from-append n (text_append "," tail) good.one
      ∙ ap (λ p. (text_append n p.0, p.1)) (split_from-comma tail)
      ∙ ap (λ x. (x, split b',' tail)) (append-nil n) in
    ap (λ p. p.0 ∷ p.1) parts ∙ ap (λ names'. n ∷ names') (split-join m names rest)

append_some : (s t : String) → str_eq s "" ≡ false → str_eq (text_append s t) "" ≡ false
append_some String.[] t h = cc
append_some (String.◌∷◌ c s) t h = rw (cons-append c s t) (cons_some c (text_append s t))

-- A text of names is not empty.
pub join_some :
    (n : String) (names : List String) → IsName n → str_eq (join "," (n ∷ names)) "" ≡ false
unfolding join
join_some n [] good = good.named
join_some n (m ∷ names) good = append_some n _ good.named

-- A name that is added at the end, if it is not there.
abbrev pub insert : String → List String → List String
insert r names = if any (str_eq r) names then names else names ++ (r ∷ [])

apart : (a b : String) → str_eq a b ≡ false → str_eq b a ≡ false
apart a b h = ground (arith, eq_iff a b, eq_iff b a)

any-snoc :
    (p : String → Bool) (names : List String) (r : String)
    → any p (names ++ (r ∷ [])) ≡ (any p names || p r)
any-snoc p [] r = ground arith
any-snoc p (n ∷ names) r = ground (arith, any-snoc p names r)

Distinct-snoc :
    (names : List String) (r : String)
    → Distinct names
    → any (str_eq r) names ≡ false
    → Distinct (names ++ (r ∷ []))
Distinct-snoc [] r h new = (refl, tt)
Distinct-snoc (n ∷ names) r (first, rest) new = (
  any-snoc (str_eq n) names r ∙ ground (arith, apart r n),
  Distinct-snoc names r rest (ground arith),
)

All-snoc :
    (P : String → Type 0) (names : List String) (r : String)
    → All P names
    → P r
    → All P (names ++ (r ∷ []))
All-snoc P [] r h new = (new, tt)
All-snoc P (n ∷ names) r (first, rest) new = (first, All-snoc P names r rest new)

pub insert-Distinct :
    (r : String) (names : List String) → Distinct names → Distinct (insert r names)
insert-Distinct r names h = elim (Bool-cases (any (str_eq r) names)) [
  | inl old ↦ rw old h
  | inr new ↦ rw new (Distinct-snoc names r h new)
]

pub insert-All :
    (P : String → Type 0) (r : String) (names : List String)
    → All P names
    → P r
    → All P (insert r names)
insert-All P r names h new = elim (Bool-cases (any (str_eq r) names)) [
  | inl old ↦ rw old h
  | inr fresh ↦ rw fresh (All-snoc P names r h new)
]

-- None of the names was seen.
abbrev Fresh : List String → List String → Type 0
Fresh seen = All (λ n. any (str_eq n) seen ≡ false)

Fresh-seen :
    (n : String) (seen names : List String)
    → Fresh seen names
    → any (str_eq n) names ≡ false
    → Fresh (n ∷ seen) names
Fresh-seen n seen [] h new = tt
Fresh-seen n seen (m ∷ names) (first, rest) new =
    (ground (arith, apart n m), Fresh-seen n seen names rest (ground arith))

remove_seen-snoc :
    (seen names : List String) (r : String)
    → Distinct names
    → Fresh seen names
    → remove_seen seen (names ++ (r ∷ []))
      ≡ names ++ (if any (str_eq r) seen || any (str_eq r) names then [] else r ∷ [])
unfolding remove_seen
remove_seen-snoc seen [] r h fresh = elim (Bool-cases (any (str_eq r) seen)) [
  | inl old ↦ rw (old, remove_seen) refl
  | inr none_seen ↦ rw (none_seen, remove_seen) refl
]
remove_seen-snoc seen (n ∷ names) r (first, rest) (new, fresh) =
    let ih = remove_seen-snoc (n ∷ seen) names r rest (Fresh-seen n seen names fresh first) in
    let sides : ((str_eq r n || any (str_eq r) seen) || any (str_eq r) names)
        ≡ (any (str_eq r) seen || (str_eq r n || any (str_eq r) names)) =
      ground arith in
    rw (new, remove_seen)
      (ap (λ l. n ∷ l) ih ∙ ap (λ (b : Bool). n ∷ (names ++ (if b then [] else r ∷ []))) sides)

pub remove_duplicate-snoc :
    (names : List String) (r : String)
    → Distinct names
    → remove_duplicate (names ++ (r ∷ [])) ≡ insert r names
unfolding remove_duplicate
remove_duplicate-snoc names r h =
    remove_seen-snoc [] names r h (All-of_forall (λ n. any (str_eq n) [] ≡ false) (λ n. refl) names)
    ∙ elim (Bool-cases (any (str_eq r) names)) [
      | inl old ↦ rw old (list_append-nil names)
      | inr new ↦ rw new refl
    ]
