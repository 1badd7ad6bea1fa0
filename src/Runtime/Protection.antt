-- ===== src/Runtime/Protection.antt =====
-- The annotations that name what protects a resource from deletion: addProtectionAnnotation and
-- removeDuplicate of pkg/comp-functions/runtime/function_mgr.go, and the reading of the annotation in
-- addUsages.
pub mod Names
pub mod Refinement
use appcat.Common.{
  Bool, true, false, String, str_eq, List, [], ◌∷◌, ◌++◌, any, Option, none, some, if◌then◌else◌,
}
use appcat.Common.Maps.{put}
use appcat.Common.Results.{lookup, text_or_empty}
use appcat.Common.Text.{split, join}

abbrev pub protected_by_annotation : String
protected_by_annotation = "appcat.vshn.io/protectedby"

abbrev pub protects_annotation : String
protects_annotation = "appcat.vshn.io/protects"

-- The loop of removeDuplicate, with the keys that it has seen.
unfoldable pub remove_seen : List String → List String → List String
remove_seen all_keys [] = []
remove_seen all_keys (item ∷ items) = elim (any (str_eq item) all_keys) [
  | true ↦ remove_seen all_keys items
  | false ↦ item ∷ remove_seen (item ∷ all_keys) items
]

unfoldable pub remove_duplicate : List String → List String
remove_duplicate items = remove_seen [] items

-- The value of the annotation, from its old value.
unfoldable pub add_name : String → String → String
add_name res_name old =
    if str_eq old ""
    then res_name
    else join "," (remove_duplicate (split b',' old ++ (res_name ∷ [])))

unfoldable pub add_protection_annotation :
    String → String → List (String × String) → List (String × String)
add_protection_annotation res_name protection_type annotations =
    put protection_type (add_name res_name (text_or_empty (lookup protection_type annotations)))
      annotations

-- The options of one object, applied one after the other.
unfoldable pub add_all : List String → String → List (String × String) → List (String × String)
add_all [] protection_type annotations = annotations
add_all (n ∷ names) protection_type annotations =
    add_all names protection_type (add_protection_annotation n protection_type annotations)

-- The names that addUsages finds in an annotation.
unfoldable pub names_in : Option String → List String
names_in none = []
names_in (some value) = split b',' value
