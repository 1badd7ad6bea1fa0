-- ===== src/Runtime/Naming/Escape.antt =====
-- That the names of pkg/comp-functions/runtime/naming.go follow the rules, and stay as they are when
-- they are escaped again.
use Prim.Native.String.{◌++◌ as text_append}
use appcat.Common.{
  ℕ, suc, ◌+◌, ◌-◌, ◌<◌, ◌≤◌, leb, ltb, le→leb, Bool, true, false, ◌&&◌, String, str_eq, ◌≡◌, refl,
  sym, ap, ◌∙◌, subst, inl, inr, Bool-cases, arith,
}
use appcat.Common.Text.{trim_left, trim_right}
use appcat.Runtime.Naming.{
  is_low, is_alnum, is_inner, not_alnum, all_chars, first_is, last_is, text_length, take,
  matches_label, dashed, hash_string, escape_dns1123, cut_label, escape_dns1123_label,
}
use appcat.Runtime.Naming.Conforms.{
  not_upper, Conforms, IsDigest, all_chars_mono, all_chars-trim_left, all_chars-trim_right,
  dashed-inner, first-trim_left, first-trim_right, last-trim_right, dashed-some, trim_left_some,
  trim_right_some, first-low, last-low, cut-Conforms, shortened-Conforms,
}

trimmed_lem :
    (s : String)
    → all_chars not_upper s ≡ true
    → all_chars not_alnum s ≡ false
    → let t = trim_right not_alnum (trim_left not_alnum (dashed false s)) in
      (first_is is_low t ≡ true) × (last_is is_low t ≡ true) × (all_chars (is_inner false) t ≡ true)
unfolding all_chars
trimmed_lem s lower letters =
    let d = dashed false s in
    let l = trim_left not_alnum d in
    let t = trim_right not_alnum l in
    let inner : all_chars (is_inner false) t ≡ true =
      all_chars-trim_right (is_inner false) not_alnum l
        (all_chars-trim_left (is_inner false) not_alnum d (dashed-inner false s lower)) in
    let some_left : all_chars not_alnum l ≡ false =
      trim_left_some not_alnum d (dashed-some false s letters) in
    let full : str_eq t "" ≡ false = trim_right_some not_alnum l some_left in
    let begins : first_is is_alnum l ≡ true = elim (first-trim_left is_alnum d) [
      | inl empty ↦
          let clash : true ≡ false = sym (ap (all_chars not_alnum) empty) ∙ some_left in cc
      | inr first ↦ first
    ] in
    (
      elim (first-trim_right is_alnum not_alnum l begins) [
        | inl empty ↦ let clash : true ≡ false = sym (ap (λ x. str_eq x "") empty) ∙ full in cc
        | inr first ↦ first-low t inner first
      ],
      elim (last-trim_right is_alnum l) [
        | inl empty ↦ let clash : true ≡ false = sym (ap (λ x. str_eq x "") empty) ∙ full in cc
        | inr last ↦ last-low t inner last
      ],
      inner,
    )

inner_more : (c : ℕ) → is_inner false c ≡ true → is_inner true c ≡ true
unfolding is_inner
inner_more c h = ground arith

Conforms-colons : (colons : Bool) (n : ℕ) (s : String) → Conforms false n s → Conforms colons n s
Conforms-colons false n s h = h
Conforms-colons true n s h = record {
  short = h.short;
  start = h.start;
  end = h.end;
  inner = all_chars_mono (is_inner false) (is_inner true) inner_more s h.inner;
}

-- strings.ToLower leaves no capital letter of the ASCII alphabet.
pub record IsLowering (to_lower : String → String) : Type 0 where
  pub lowers : (s : String) → all_chars not_upper (to_lower s) ≡ true

module _ (to_lower sha1_hex : String → String) (lowering : IsLowering to_lower)
    (digest : IsDigest sha1_hex) where
  escape-Conforms :
      (name : String) (colons : Bool)
      → all_chars not_alnum (to_lower name) ≡ false
      → Conforms colons 253 (escape_dns1123 to_lower sha1_hex name colons)
  unfolding escape_dns1123 matches_label
  escape-Conforms name colons letters =
      elim (Bool-cases (matches_label colons name && leb (text_length name) 253)) [
        | inl good ↦ rw good (record {
          short = ground arith;
          start = ground arith;
          end = ground arith;
          inner = ground arith;
        })
        | inr bad ↦
            let (first, last, inner) = trimmed_lem (to_lower name) (lowering.lowers name) letters in
            rw bad (
              Conforms-colons colons 253 _
                (shortened-Conforms to_lower sha1_hex digest _ first last inner))
      ]

  conforming_kept :
      (name : String) (colons : Bool)
      → Conforms colons 253 name
      → escape_dns1123 to_lower sha1_hex name colons ≡ name
  unfolding escape_dns1123 matches_label
  conforming_kept name colons h =
      let short = le→leb _ _ h.short in rw (h.start, h.end, h.inner, short) refl

  cut_label-Conforms :
      (name : String) (n : ℕ)
      → 5 < n
      → Conforms false 253 name
      → Conforms false n (cut_label to_lower sha1_hex name n)
  unfolding cut_label
  cut_label-Conforms name n above h = elim (Bool-cases (ltb n (text_length name))) [
    | inl long ↦
        let size : suc (n - 6) + 5 ≡ n = omega arith in
        let kept : n - 5 ≡ suc (n - 6) = omega arith in
        rw (long, kept)
          (subst
            (λ k.
              Conforms false k
                (text_append (take (suc (n - 6)) name) (hash_string to_lower sha1_hex name)))
            size (cut-Conforms to_lower sha1_hex digest (n - 6) name name h.start h.inner))
    | inr fits ↦
        rw fits (record { short = ground arith; start = h.start; end = h.end; inner = h.inner })
  ]

  cut_label-kept :
      (name : String) (n : ℕ) → Conforms false n name → cut_label to_lower sha1_hex name n ≡ name
  unfolding cut_label
  cut_label-kept name n h =
      let short = h.short in
      elim (Bool-cases (ltb n (text_length name))) [
        | inl long ↦ absurd (ground arith)
        | inr fits ↦ rw fits refl
      ]

  -- A name that is cut is longer than the limit, so the limit is below 253.
  cut_label-fits :
      (name : String) (n : ℕ)
      → 5 < n
      → Conforms false 253 name
      → Conforms false 253 (cut_label to_lower sha1_hex name n)
  unfolding cut_label
  cut_label-fits name n above h =
      let cut = cut_label-Conforms name n above h in
      let short = h.short in
      let cut_short = cut.short in
      elim (Bool-cases (ltb n (text_length name))) [
        | inl long ↦
            let below : n ≤ 253 = ground arith in
            record { short = omega arith; start = cut.start; end = cut.end; inner = cut.inner }
        | inr fits ↦ rw fits h
      ]

  label_kept :
      (name : String) (n : ℕ)
      → Conforms false 253 name
      → Conforms false n name
      → escape_dns1123_label to_lower sha1_hex name n ≡ name
  unfolding escape_dns1123_label
  label_kept name n fits h = rw (conforming_kept name false fits) (cut_label-kept name n h)

  -- A name that keeps a letter or digit when it is lowered is escaped to one of at most 253
  -- characters, which begins and ends with a small letter or digit and has only these, dashes and, if
  -- allowed, colons; escaping that again changes nothing. As a label with a limit above five it
  -- has at most so many characters, and no colons; escaping the label again changes nothing.
  pub escape_dns1123_lem :
      (name : String) (colons : Bool) (n : ℕ)
      → all_chars not_alnum (to_lower name) ≡ false
      → 5 < n
      → Conforms colons 253 (escape_dns1123 to_lower sha1_hex name colons)
        × (escape_dns1123 to_lower sha1_hex (escape_dns1123 to_lower sha1_hex name colons) colons
            ≡ escape_dns1123 to_lower sha1_hex name colons)
        × Conforms false n (escape_dns1123_label to_lower sha1_hex name n)
        × (escape_dns1123_label to_lower sha1_hex (escape_dns1123_label to_lower sha1_hex name n) n
            ≡ escape_dns1123_label to_lower sha1_hex name n)
  unfolding escape_dns1123_label
  escape_dns1123_lem name colons n letters above =
      let good = escape-Conforms name colons letters in
      let plain = escape-Conforms name false letters in
      let label = cut_label-Conforms _ n above plain in
      (
        good,
        conforming_kept _ colons good,
        label,
        label_kept _ n (cut_label-fits _ n above plain) label,
      )
