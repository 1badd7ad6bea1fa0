-- ===== src/Common/Results.antt =====
-- Calls that change the outside world and may fail: `W` is its state, `E` the errors. Also the labels and
-- the kinds of Kubernetes objects.
use Prim.Native.String.{String}
use mathlib.Core.Option.{Option, none, some}
use mathlib.Core.List.{List, [], ◌∷◌}
use text.Mathlib.Text.{◌==◌ as str_eq}
use mathlib.Core.Bool.{Bool, false}
use appcat.Common.Tests.{if◌then◌else◌}

pub data Result (E A : Type 0) : Type 0 where
  ok : A → Result E A
  err : E → Result E A

abbrev pub Io : Type 0 → Type 0 → Type 0 → Type 0
Io W E A = W → Result E A × W

abbrev pub and_then : {W E A B : Type 0} → Result E A × W → (A → Io W E B) → Result E B × W
and_then (ok a, w) f = f a w
and_then (err e, w) f = (err e, w)

infixl 5 ◌>>=◌ ◌>>◌
abbrev pub ◌>>=◌ : {W E A B : Type 0} → Io W E A → (A → Io W E B) → Io W E B
◌>>=◌ m f w = and_then (m w) f

abbrev pub ◌>>◌ : {W E B : Type 0} → Io W E (Unit {0}) → Io W E B → Io W E B
m >> k = m >>= λ _. k

abbrev pub pure : {W E A : Type 0} → A → Io W E A
pure a w = (ok a, w)

abbrev pub fail : {W E A : Type 0} → E → Io W E A
fail e w = (err e, w)

-- An answer that may be missing, with the error for that.
abbrev pub expect : {W E A : Type 0} → E → Option A → Io W E A
expect e none = fail e
expect e (some a) = pure a

-- The value of a key in a Go map, if it is there.
abbrev pub lookup {ℓ} : {V : Type ℓ} → String → List (String × V) → Option V
lookup k [] = none
lookup k ((j, v) ∷ m) = if str_eq j k then some v else lookup k m

-- A Go map gives the empty text for a key that is not there.
abbrev pub text_or_empty : Option String → String
text_or_empty none = ""
text_or_empty (some s) = s

-- schema.GroupVersionKind of Kubernetes.
pub record GroupVersionKind : Type 0 where
  pub group : String
  pub version : String
  pub kind : String

-- Whether the value of a label is "true".
abbrev pub is_true : Option String → Bool
is_true none = false
is_true (some v) = str_eq v "true"
