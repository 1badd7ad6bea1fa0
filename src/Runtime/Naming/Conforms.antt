-- ===== src/Runtime/Naming/Conforms.antt =====
-- What the names of pkg/comp-functions/runtime/naming.go look like.
use Prim.Native.Char.{Char, code}
use Prim.Native.String.{◌++◌ as text_append}
use text.Mathlib.TextLemmas.{cons-append, nil-append}
use appcat.Common.{
  ℕ, zero, suc, ◌+◌, ◌≤◌, leb, ltb, Bool, true, false, ◌&&◌, ◌||◌, not, String, str_eq, eq_iff, ◌≡◌,
  refl, ap, ◌⊎◌, inl, inr, Bool-cases, arith,
}
use appcat.Common.Text.{trim_left, trim_right}
use appcat.Runtime.Naming.{
  is_low, is_alnum, is_inner, not_alnum, all_chars, first_is, last_is, text_length, take, dashed,
  hash_string, shortened,
}

abbrev pub is_upper : ℕ → Bool
is_upper c = leb b'A' c && leb c b'Z'

abbrev pub not_upper : ℕ → Bool
not_upper c = not (is_upper c)

-- [0-9a-f], which are small letters and digits.
abbrev pub is_hex : ℕ → Bool
is_hex c = (leb b'0' c && leb c b'9') || (leb b'a' c && leb c b'f')

-- The rules for a name: its length, its first and last character, and all characters.
pub record Conforms (colons : Bool) (limit : ℕ) (name : String) : Type 0 where
  pub short : text_length name ≤ limit
  pub start : first_is is_low name ≡ true
  pub end : last_is is_low name ≡ true
  pub inner : all_chars (is_inner colons) name ≡ true

pub all_chars_mono :
    (p q : ℕ → Bool)
    → ((c : ℕ) → p c ≡ true → q c ≡ true)
    → (s : String) → all_chars p s ≡ true
    → all_chars q s ≡ true
unfolding all_chars
all_chars_mono p q sub String.[] h = refl
all_chars_mono p q sub (String.◌∷◌ c s) h = ground (arith, sub (code c), all_chars_mono p q sub s)

all_chars-append :
    (p : ℕ → Bool) (s t : String)
    → all_chars p s ≡ true
    → all_chars p t ≡ true
    → all_chars p (text_append s t) ≡ true
unfolding all_chars
all_chars-append p String.[] t hs ht = rw (nil-append t) ht
all_chars-append p (String.◌∷◌ c s) t hs ht =
    rw (cons-append c s t) (ground (arith, all_chars-append p s t))

all_chars-take :
    (p : ℕ → Bool) (n : ℕ) (s : String) → all_chars p s ≡ true → all_chars p (take n s) ≡ true
unfolding all_chars take
all_chars-take p zero s h = refl
all_chars-take p (suc n) String.[] h = refl
all_chars-take p (suc n) (String.◌∷◌ c s) h = ground (arith, all_chars-take p n s)

pub all_chars-trim_left :
    (p q : ℕ → Bool) (s : String) → all_chars p s ≡ true → all_chars p (trim_left q s) ≡ true
unfolding all_chars trim_left
all_chars-trim_left p q String.[] h = refl
all_chars-trim_left p q (String.◌∷◌ c s) h = ground (arith, all_chars-trim_left p q s)

pub all_chars-trim_right :
    (p q : ℕ → Bool) (s : String) → all_chars p s ≡ true → all_chars p (trim_right q s) ≡ true
unfolding all_chars trim_right
all_chars-trim_right p q String.[] h = refl
all_chars-trim_right p q (String.◌∷◌ c s) h =
    let rest = all_chars-trim_right p q s (ground arith) in
    elim (Bool-cases (str_eq (trim_right q s) "" && q (code c))) [
      | inl ends ↦ rw (ends, trim_right) refl
      | inr goes ↦ rw (goes, trim_right) (ground arith)
    ]

-- Small letters, digits and dashes are what is left of a text without capitals.
pub dashed-inner :
    (inside : Bool) (s : String)
    → all_chars not_upper s ≡ true
    → all_chars (is_inner false) (dashed inside s) ≡ true
unfolding all_chars dashed is_inner is_alnum is_low
dashed-inner inside String.[] h = refl
dashed-inner inside (String.◌∷◌ c s) h = ground (arith, dashed-inner (not_alnum (code c)) s)

-- What is left by the two trims begins and ends with a character that stays.

pub first-trim_left :
    (p : ℕ → Bool) (s : String)
    → (trim_left (λ c. not (p c)) s ≡ "") ⊎ (first_is p (trim_left (λ c. not (p c)) s) ≡ true)
unfolding first_is trim_left
first-trim_left p String.[] = inl refl
first-trim_left p (String.◌∷◌ c s) = elim (Bool-cases (p (code c))) [
  | inl stays ↦ rw stays (inr stays)
  | inr goes ↦ rw goes (first-trim_left p s)
]

pub first-trim_right :
    (p q : ℕ → Bool) (s : String)
    → first_is p s ≡ true
    → (trim_right q s ≡ "") ⊎ (first_is p (trim_right q s) ≡ true)
unfolding first_is trim_right
first-trim_right p q String.[] h = inl refl
first-trim_right p q (String.◌∷◌ c s) h =
    elim (Bool-cases (str_eq (trim_right q s) "" && q (code c))) [
      | inl ends ↦ inl (rw (ends, trim_right) refl)
      | inr goes ↦ inr (rw (goes, trim_right) h)
    ]

last-cons :
    (p : ℕ → Bool) (c : Char) (s : String)
    → (s ≡ "") × (p (code c) ≡ true) ⊎ (last_is p s ≡ true)
    → last_is p (String.◌∷◌ c s) ≡ true
unfolding last_is
last-cons p c String.[] (inl (empty, good)) = good
last-cons p c String.[] (inr last) = cc
last-cons p c (String.◌∷◌ d s) (inl (empty, good)) = cc
last-cons p c (String.◌∷◌ d s) (inr last) = last

pub cons_some : (c : Char) (s : String) → str_eq (String.◌∷◌ c s) "" ≡ false
cons_some c s = elim (Bool-cases (str_eq (String.◌∷◌ c s) "")) [
  | inl same ↦ let clash : String.◌∷◌ c s ≡ "" = (eq_iff (String.◌∷◌ c s) "").0 same in cc
  | inr other ↦ other
]

last-some : (p : ℕ → Bool) (s : String) → last_is p s ≡ true → str_eq s "" ≡ false
unfolding last_is
last-some p String.[] h = cc
last-some p (String.◌∷◌ c s) h = cons_some c s

pub last-trim_right :
    (p : ℕ → Bool) (s : String)
    → (trim_right (λ c. not (p c)) s ≡ "") ⊎ (last_is p (trim_right (λ c. not (p c)) s) ≡ true)
unfolding trim_right
last-trim_right p String.[] = inl refl
last-trim_right p (String.◌∷◌ c s) = elim (last-trim_right p s) [
  | inr last ↦
      let some_left = last-some p (trim_right (λ c'. not (p c')) s) last in
      inr (rw (some_left, trim_right) (last-cons p c _ (inr last)))
  | inl gone ↦ elim (Bool-cases (p (code c))) [
    | inl stays ↦ inr (rw (gone, stays, trim_right) (last-cons p c "" (inl (refl, stays))))
    | inr goes ↦ inl (rw (gone, goes, trim_right) refl)
  ]
]

-- A text with a character that stays is not emptied.

pub dashed-some :
    (inside : Bool) (s : String)
    → all_chars not_alnum s ≡ false
    → all_chars not_alnum (dashed inside s) ≡ false
unfolding all_chars dashed is_alnum
dashed-some inside String.[] h = cc
dashed-some inside (String.◌∷◌ c s) h = elim (Bool-cases (is_alnum (code c))) [
  | inl stays ↦ rw (stays, dashed) (rw stays refl)
  | inr goes ↦
      let rest = dashed-some (not_alnum (code c)) s (rw goes at h) in
      elim (Bool-cases inside) [
        | inl within ↦ rw (goes, within, dashed) (rw goes at rest)
        | inr starts ↦ rw (goes, starts, dashed) (rw goes at rest)
      ]
]

pub trim_left_some :
    (p : ℕ → Bool) (s : String) → all_chars p s ≡ false → all_chars p (trim_left p s) ≡ false
unfolding all_chars trim_left
trim_left_some p String.[] h = cc
trim_left_some p (String.◌∷◌ c s) h = elim (Bool-cases (p (code c))) [
  | inl goes ↦ rw (goes, trim_left) (trim_left_some p s (rw goes at h))
  | inr stays ↦ rw (stays, trim_left) (rw stays refl)
]

pub trim_right_some :
    (p : ℕ → Bool) (s : String) → all_chars p s ≡ false → str_eq (trim_right p s) "" ≡ false
unfolding all_chars trim_right
trim_right_some p String.[] h = cc
trim_right_some p (String.◌∷◌ c s) h = elim (Bool-cases (p (code c))) [
  | inl goes ↦
      let rest = trim_right_some p s (rw goes at h) in rw (goes, rest, trim_right) (cons_some c _)
  | inr stays ↦ elim (Bool-cases (str_eq (trim_right p s) "")) [
    | inl empty ↦ rw (stays, empty, trim_right) (cons_some c _)
    | inr more ↦ rw (stays, more, trim_right) (cons_some c _)
  ]
]

-- The parts of a name that is cut.

first-append :
    (p : ℕ → Bool) (s t : String) → first_is p s ≡ true → first_is p (text_append s t) ≡ true
unfolding first_is
first-append p String.[] t h = cc
first-append p (String.◌∷◌ c s) t h = rw (cons-append c s t) h

last-append :
    (p : ℕ → Bool) (s t : String) → last_is p t ≡ true → last_is p (text_append s t) ≡ true
last-append p String.[] t h = rw (nil-append t) h
last-append p (String.◌∷◌ c s) t h =
    rw (cons-append c s t) (last-cons p c (text_append s t) (inr (last-append p s t h)))

first-take :
    (p : ℕ → Bool) (n : ℕ) (s : String) → first_is p s ≡ true → first_is p (take (suc n) s) ≡ true
unfolding first_is take
first-take p n String.[] h = cc
first-take p n (String.◌∷◌ c s) h = h

text_length-append : (s t : String) → text_length (text_append s t) ≡ text_length s + text_length t
unfolding text_length
text_length-append String.[] t = omega (arith, ap text_length (nil-append t))
text_length-append (String.◌∷◌ c s) t =
    omega (arith, ap text_length (cons-append c s t), text_length-append s t)

text_length-take : (n : ℕ) (s : String) → text_length (take n s) ≤ n
unfolding text_length take
text_length-take zero s = omega arith
text_length-take (suc n) String.[] = omega arith
text_length-take (suc n) (String.◌∷◌ c s) = omega (arith, text_length-take n s)

-- What the digest has to be: hex digits, one at least.
pub record IsDigest (sha1_hex : String → String) : Type 0 where
  pub hex : (s : String) → all_chars is_hex (sha1_hex s) ≡ true
  pub some_hex : (s : String) → first_is is_hex (sha1_hex s) ≡ true

all-last :
    (p q : ℕ → Bool) (s : String) → all_chars p s ≡ true → first_is q s ≡ true → last_is p s ≡ true
unfolding all_chars first_is last_is
all-last p q String.[] all first = cc
all-last p q (String.◌∷◌ c String.[]) all first = ground arith
all-last p q (String.◌∷◌ c (String.◌∷◌ d s)) all first =
    all-last p p (String.◌∷◌ d s) (ground arith) (ground arith)

pub first-low :
    (s : String)
    → all_chars (is_inner false) s ≡ true
    → first_is is_alnum s ≡ true
    → first_is is_low s ≡ true
unfolding all_chars first_is is_inner is_alnum is_low
first-low String.[] all first = cc
first-low (String.◌∷◌ c s) all first = ground arith

pub last-low :
    (s : String)
    → all_chars (is_inner false) s ≡ true
    → last_is is_alnum s ≡ true
    → last_is is_low s ≡ true
unfolding all_chars last_is is_inner is_alnum is_low
last-low String.[] all last = cc
last-low (String.◌∷◌ c String.[]) all last = ground arith
last-low (String.◌∷◌ c (String.◌∷◌ d s)) all last = last-low (String.◌∷◌ d s) (ground arith) last

inner_of_hex : (c : ℕ) → is_hex c ≡ true → is_inner false c ≡ true
unfolding is_inner is_low
inner_of_hex c h = ground arith

low_of_hex : (c : ℕ) → is_hex c ≡ true → is_low c ≡ true
unfolding is_low
low_of_hex c h = ground arith

last_is_mono :
    (p q : ℕ → Bool)
    → ((c : ℕ) → p c ≡ true → q c ≡ true)
    → (s : String) → last_is p s ≡ true
    → last_is q s ≡ true
unfolding last_is
last_is_mono p q sub String.[] h = h
last_is_mono p q sub (String.◌∷◌ c String.[]) h = sub (code c) h
last_is_mono p q sub (String.◌∷◌ c (String.◌∷◌ d s)) h = last_is_mono p q sub (String.◌∷◌ d s) h

module _ (to_lower sha1_hex : String → String) (digest : IsDigest sha1_hex) where
  hash_string_lem :
      (s : String)
      → (text_length (hash_string to_lower sha1_hex s) ≤ 5)
        × (last_is is_low (hash_string to_lower sha1_hex s) ≡ true)
        × (all_chars (is_inner false) (hash_string to_lower sha1_hex s) ≡ true)
  unfolding hash_string text_length all_chars is_inner is_low take
  hash_string_lem s =
      let hex = all_chars-take is_hex 4 (sha1_hex s) (digest.hex s) in
      let first = first-take is_hex 3 (sha1_hex s) (digest.some_hex s) in
      (
        omega (arith, text_length-take 4 (sha1_hex s)),
        last-cons is_low "-" (take 4 (sha1_hex s)) (
            inr (
              last_is_mono is_hex is_low low_of_hex (take 4 (sha1_hex s))
                (all-last is_hex is_hex _ hex first))),
        all_chars_mono is_hex (is_inner false) inner_of_hex (take 4 (sha1_hex s)) hex,
      )

  -- A name that is cut and gets the digest.
  pub cut-Conforms :
      (n : ℕ) (name whole : String)
      → first_is is_low name ≡ true
      → all_chars (is_inner false) name ≡ true
      → Conforms false
          (suc n + 5)
          (text_append (take (suc n) name) (hash_string to_lower sha1_hex whole))
  cut-Conforms n name whole first inner =
      let (short, last, rest) = hash_string_lem whole in
      record {
        short = omega (
          arith,
          text_length-append (take (suc n) name) (hash_string to_lower sha1_hex whole),
          text_length-take (suc n) name,
        );
        start = first-append is_low _ _ (first-take is_low n name first);
        end = last-append is_low (take (suc n) name) _ last;
        inner =
            all_chars-append (is_inner false) _ _
              (all_chars-take (is_inner false) (suc n) name inner) rest;
      }

  pub shortened-Conforms :
      (name : String)
      → first_is is_low name ≡ true
      → last_is is_low name ≡ true
      → all_chars (is_inner false) name ≡ true
      → Conforms false 253 (shortened to_lower sha1_hex name)
  unfolding shortened
  shortened-Conforms name first last inner = elim (Bool-cases (ltb 253 (text_length name))) [
    | inl long ↦ rw long (cut-Conforms 247 name name first inner)
    | inr short ↦
        rw short (record { short = ground arith; start = first; end = last; inner = inner })
  ]
