-- ===== src/Maintenance/Examples/Versions.antt =====
-- Versions for the runs below: numbers in a lexicographic order, and some texts.
use appcat.Common.{
  ℕ, ltb, leb, ◌==◌, Bool, true, ◌&&◌, ◌||◌, String, str_eq, List, [], ◌∷◌, Option, none, some, ◌≡◌,
  arith, if◌then◌else◌,
}
use appcat.Maintenance.Semver.{Version, Semver, IsOrder}

abbrev pub version : ℕ → ℕ → ℕ → List String → Version
version major minor patch pre = record {
  major = major;
  minor = minor;
  patch = patch;
  pre = pre;
  build = [];
}

abbrev parse_table : List (String × Version) → String → Option Version
parse_table [] s = none
parse_table ((t, v) ∷ table) s = if str_eq t s then some v else parse_table table s

abbrev table : List (String × Version)
table =
    ("v1.2.3", version 1 2 3 [])
    ∷ ("v1.3.0", version 1 3 0 [])
    ∷ ("v1.1.9", version 1 1 9 [])
    ∷ ("1.2.3", version 1 2 3 [])
    ∷ ("1.2.5", version 1 2 5 [])
    ∷ ("1.3.0-rc", version 1 3 0 ("rc" ∷ []))
    ∷ ("2.0.0", version 2 0 0 [])
    ∷ []

-- The texts without a "v".
abbrev plain : List (String × Version)
plain =
    ("1.2.3", version 1 2 3 [])
    ∷ ("1.2.5", version 1 2 5 [])
    ∷ ("1.3.0-rc", version 1 3 0 ("rc" ∷ []))
    ∷ ("2.0.0", version 2 0 0 [])
    ∷ []

abbrev print_table : List (String × Version) → Version → String
print_table [] v = "0.0.0"
print_table ((t, u) ∷ table) v =
    if u.major == v.major && u.minor == v.minor && u.patch == v.patch
    then t
    else print_table table v

abbrev below : Version → Version → Bool
below a b =
    ltb a.major b.major
    || (a.major == b.major && (ltb a.minor b.minor || (a.minor == b.minor && leb a.patch b.patch)))

abbrev equal : Version → Version → Bool
equal a b = a.major == b.major && a.minor == b.minor && a.patch == b.patch

abbrev pub numbers : Semver
numbers = record {
  parse_tolerant = parse_table table;
  new = parse_table table;
  lte = below;
  eq = equal;
  print = print_table plain;
}

below_total : (a b : Version) → (below a b || below b a) ≡ true
below_total a b = ground arith

below_trans : (a b d : Version) → below a b ≡ true → below b d ≡ true → below a d ≡ true
below_trans a b d h k = ground arith

pub numbers-IsOrder : IsOrder numbers
numbers-IsOrder = record { total = below_total; trans = below_trans }
