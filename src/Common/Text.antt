-- ===== src/Common/Text.antt =====
-- Functions of Go's package strings that the components use.
use Prim.Native.Nat.{ℕ, ◌+◌}
use Prim.Native.Char.{code}
use Prim.Native.String.{String, slice, len, ◌++◌ as text_append}
use mathlib.Core.Path.{◌≡◌, refl}
use mathlib.Core.Bool.{Bool, true, false, ◌||◌, ◌&&◌}
use mathlib.Core.List.{List, [], ◌∷◌}
use mathlib.Core.Option.{none, some}
use text.Mathlib.Text.{find?, ◌==◌ as str_eq}
use appcat.Common.Tests.{if◌then◌else◌, leb, ◌==◌}

-- unicode.IsSpace.
unfoldable pub is_space : ℕ → Bool
is_space c =
    (leb 9 c && leb c 13)
    || c == 32
    || c == 0x85
    || c == 0xA0
    || c == 0x1680
    || (leb 0x2000 c && leb c 0x200A)
    || c == 0x2028
    || c == 0x2029
    || c == 0x202F
    || c == 0x205F
    || c == 0x3000

-- TrimLeft, for the characters that pass a test.
unfoldable pub trim_left : (ℕ → Bool) → String → String
trim_left p String.[] = String.[]
trim_left p (String.◌∷◌ c s) =
    let rest = trim_left p s in if p (code c) then rest else String.◌∷◌ c s

-- A text loses its end from the first place on behind which all characters pass the test.
unfoldable pub trim_right : (ℕ → Bool) → String → String
trim_right p String.[] = String.[]
trim_right p (String.◌∷◌ c s) =
    let rest = trim_right p s in
    if str_eq rest "" && p (code c) then String.[] else String.◌∷◌ c rest

unfoldable pub trim : (ℕ → Bool) → String → String
trim p s = trim_right p (trim_left p s)

unfoldable pub trim_space : String → String
trim_space = trim is_space

-- Split, for a separator of one character.

unfoldable pub split_from : ℕ → String → String × List String
split_from sep String.[] = ("", [])
split_from sep (String.◌∷◌ c s) =
    let (first, rest) = split_from sep s in
    if code c == sep then ("", first ∷ rest) else (String.◌∷◌ c first, rest)

unfoldable pub split : ℕ → String → List String
split sep s = let (first, rest) = split_from sep s in first ∷ rest

unfoldable pub contains_text : String → String → Bool
contains_text s t = elim (find? s t) [ none ↦ false | some i ↦ true ]

-- Cut: the text before the separator and the text behind it, or the whole text.
unfoldable pub cut : String → String → String × String × Bool
cut s sep = elim (find? s sep) [
  | none ↦ (s, "", false)
  | some i ↦ (slice s 0 i, slice s (i + len sep) (len s), true)
]

-- Join.
unfoldable pub join : String → List String → String
join sep [] = ""
join sep (s ∷ []) = s
join sep (s ∷ (t ∷ rest)) = text_append s (text_append sep (join sep (t ∷ rest)))

split_runs : split b',' "a,b,,c" ≡ "a" ∷ "b" ∷ "" ∷ "c" ∷ []
unfolding split split_from
split_runs = refl

trim_runs : trim_space " a b  " ≡ "a b"
unfolding trim_space trim trim_left trim_right is_space
trim_runs = refl
