-- ===== src/Common/Filters.antt =====
-- Membership by position, and the entries that pass a test.
use Prim.Native.Nat.{ℕ, zero, suc}
use mathlib.Core.Path.{◌≡◌, refl, subst}
use mathlib.Core.Bool.{Bool, true, false}
use mathlib.Core.List.{List, [], ◌∷◌}
use mathlib.Core.Option.{some}
use appcat.Common.Tests.{if◌then◌else◌}
use appcat.Common.Lists.{get_elem?, keep_if, All}

module _ {ℓ} {A : Type ℓ} where
  abbrev pub IsIn : A → List A → Type ℓ
  IsIn a xs = (k : ℕ) × (get_elem? xs k ≡ some a)

  -- A filter with the test's value as an argument, for a step of an induction.
  kept-IsIn :
      (p : A → Bool) (x : A) (xs ys : List A) (k : ℕ) {a : A} (b : Bool)
      → ((j : ℕ) → get_elem? ys j ≡ some a → IsIn a xs × (p a ≡ true))
      → p x ≡ b
      → get_elem? (if b then x ∷ ys else ys) k ≡ some a
      → IsIn a (x ∷ xs) × (p a ≡ true)
  kept-IsIn p x xs ys zero {a} true inner passes at =
      let same : x ≡ a = cc in ((0, at), subst (λ y. p y ≡ true) same passes)
  kept-IsIn p x xs ys (suc k) true inner passes at =
      let ((j, found), good) = inner k at in ((suc j, found), good)
  kept-IsIn p x xs ys k false inner passes at =
      let ((j, found), good) = inner k at in ((suc j, found), good)

  pub keep_if-IsIn :
      (p : A → Bool) (xs : List A) (k : ℕ) {a : A}
      → get_elem? (keep_if p xs) k ≡ some a
      → IsIn a xs × (p a ≡ true)
  keep_if-IsIn p [] k at = cc
  keep_if-IsIn p (x ∷ xs) k at =
      kept-IsIn p x xs (keep_if p xs) k (p x) (λ j. keep_if-IsIn p xs j) refl at

  All-kept {κ} :
      (P : A → Type κ) (p : A → Bool) (x : A) (xs ys : List A) (b : Bool)
      → (All P ys → All (λ y. p y ≡ true → P y) xs)
      → p x ≡ b
      → All P (if b then x ∷ ys else ys)
      → All (λ y. p y ≡ true → P y) (x ∷ xs)
  All-kept P p x xs ys true inner passes h = (λ _. h.0, inner h.1)
  All-kept P p x xs ys false inner fails h = (λ passes. cc, inner h)

  pub All-keep_if {κ} :
      (P : A → Type κ) (p : A → Bool) (xs : List A)
      → All P (keep_if p xs)
      → All (λ y. p y ≡ true → P y) xs
  All-keep_if P p [] h = tt
  All-keep_if P p (x ∷ xs) h = All-kept P p x xs (keep_if p xs) (p x) (All-keep_if P p xs) refl h
