-- ===== src/Runtime/Protection/Refinement.antt =====
-- The annotations of pkg/comp-functions/runtime/function_mgr.go are a set of names, kept in the order in
-- which they were added.
use appcat.Common.{
  false, String, str_eq, List, [], ◌∷◌, ◌++◌, any, All, Option, none, some, ◌≡◌, refl, sym, ap, ◌∙◌,
  subst, inl, inr, Bool-cases, if◌then◌else◌,
}
use appcat.Common.Maps.{put, lookup-put_self, lookup-put_other}
use appcat.Common.Results.{lookup, text_or_empty}
use appcat.Common.Text.{split, join}
use appcat.Runtime.Protection.{
  remove_duplicate, add_name, add_protection_annotation, add_all, names_in,
}
use appcat.Runtime.Protection.Names.{
  IsName, Distinct, split-join, join_some, insert, insert-Distinct, insert-All,
  remove_duplicate-snoc,
}

-- The specification: each name is inserted into the set.
abbrev pub replay : List String → List String → List String
replay [] set = set
replay (n ∷ names) set = replay names (insert n set)

-- How an annotation has a set of names: an empty set is no annotation.
abbrev Represents : List String → Option String → Type 0
Represents [] value = value ≡ none
Represents (n ∷ names) value = value ≡ some (join "," (n ∷ names))

Represents-insert :
    (n m : String) (names : List String) (value : Option String)
    → value ≡ some (join "," (insert n (m ∷ names)))
    → Represents (insert n (m ∷ names)) value
Represents-insert n m names value has = elim (Bool-cases (any (str_eq n) (m ∷ names))) [
  | inl old ↦ rw old (rw old at has)
  | inr new ↦ rw new (rw new at has)
]

add_name-insert :
    (n : String) (set : List String) (value : Option String)
    → Represents set value
    → Distinct set
    → All IsName set
    → Represents (insert n set) (some (add_name n (text_or_empty value)))
unfolding add_name join
add_name-insert n [] value missing distinct good =
    ap (λ v. some (add_name n (text_or_empty v))) missing
add_name-insert n (m ∷ names) value has distinct good =
    let old = join "," (m ∷ names) in
    let full : str_eq old "" ≡ false = join_some m names good.0 in
    let joined : add_name n old ≡ join "," (insert n (m ∷ names)) =
      ap (λ b. if b then n else join "," (remove_duplicate (split b',' old ++ (n ∷ [])))) full
      ∙ ap (λ l. join "," (remove_duplicate (l ++ (n ∷ [])))) (split-join m names good)
      ∙ ap (join ",") (remove_duplicate-snoc (m ∷ names) n distinct) in
    Represents-insert n m names _
      (ap (λ v. some (add_name n (text_or_empty v))) has ∙ ap some joined)

-- Along the options of an object.
add_all-Represents :
    (names : List String) (protection_type : String) (set : List String)
    (annotations : List (String × String))
    → All IsName names
    → Represents set (lookup protection_type annotations)
    → Distinct set
    → All IsName set
    → Represents
        (replay names set)
        (lookup protection_type (add_all names protection_type annotations))
      × Distinct (replay names set)
      × All IsName (replay names set)
unfolding add_all add_protection_annotation
add_all-Represents [] t set annotations good has distinct named = (has, distinct, named)
add_all-Represents (n ∷ names) t set annotations (first, rest) has distinct named =
    let value = add_name n (text_or_empty (lookup t annotations)) in
    let now : Represents (insert n set) (lookup t (put t value annotations)) =
      subst (Represents (insert n set)) (sym (lookup-put_self t value annotations))
        (add_name-insert n set (lookup t annotations) has distinct named) in
    add_all-Represents names t (insert n set) (put t value annotations) rest now
      (insert-Distinct n set distinct) (insert-All IsName n set named first)

add_all_other :
    (names : List String) (protection_type k : String) (annotations : List (String × String))
    → str_eq protection_type k ≡ false
    → lookup k (add_all names protection_type annotations) ≡ lookup k annotations
unfolding add_all add_protection_annotation
add_all_other [] t k annotations differs = refl
add_all_other (n ∷ names) t k annotations differs =
    add_all_other names t k (put t _ annotations) differs
    ∙ lookup-put_other t k _ annotations differs

read_back :
    (set : List String) (value : Option String)
    → Represents set value
    → All IsName set
    → names_in value ≡ set
unfolding names_in
read_back [] value has good = ap names_in has
read_back (n ∷ names) value has good = ap names_in has ∙ split-join n names good

-- Names without commas that are added to an object one after the other, in a protection
-- annotation that it did not have, are read back as the set of these names: each once, in the
-- order of their first additions. Any other annotation stays.
pub add_all_refines :
    (names : List String) (protection_type k : String) (annotations : List (String × String))
    → All IsName names
    → lookup protection_type annotations ≡ none
    → str_eq protection_type k ≡ false
    → (names_in (lookup protection_type (add_all names protection_type annotations))
        ≡ replay names [])
      × Distinct (replay names [])
      × (lookup k (add_all names protection_type annotations) ≡ lookup k annotations)
add_all_refines names protection_type k annotations good missing differs =
    let (has, distinct, named) =
      add_all-Represents names protection_type [] annotations good missing tt tt in
    (
      read_back (replay names []) _ has named,
      distinct,
      add_all_other names protection_type k annotations differs,
    )
