-- ===== src/Runtime/Examples/Labels.antt =====
-- Names as in pkg/comp-functions/runtime/naming_test.go, with a digest that is the same for all texts.
use Prim.Native.Char.{Char, code}
use appcat.Common.{
  ℕ, zero, suc, ◌-◌, true, false, String, ◌≡◌, refl, inl, inr, Bool-cases, arith, if◌then◌else◌,
}
use appcat.Common.Text.{trim_left, trim_right}
use appcat.Runtime.Naming.{
  is_low, is_alnum, is_inner, not_alnum, all_chars, first_is, last_is, text_length, take,
  matches_label, dashed, hash_string, shortened, escape_dns1123, cut_label, escape_dns1123_label,
  escape_k8s_name,
}
use appcat.Runtime.Naming.Conforms.{is_upper, not_upper, Conforms, IsDigest}
use appcat.Runtime.Naming.Escape.{IsLowering, escape_dns1123_lem}

abbrev alphabet : String
alphabet = "abcdefghijklmnopqrstuvwxyz"

abbrev letter_at : String → ℕ → Char
letter_at String.[] n = "x"
letter_at (String.◌∷◌ c s) zero = c
letter_at (String.◌∷◌ c s) (suc n) = letter_at s n

abbrev lower : Char → Char
lower c = if is_upper (code c) then letter_at alphabet (code c - b'A') else c

abbrev to_lower : String → String
to_lower String.[] = String.[]
to_lower (String.◌∷◌ c s) = String.◌∷◌ (lower c) (to_lower s)

letter_at-not_upper :
    (s : String) (n : ℕ) → all_chars not_upper s ≡ true → not_upper (code (letter_at s n)) ≡ true
unfolding all_chars
letter_at-not_upper String.[] n h = refl
letter_at-not_upper (String.◌∷◌ c s) zero h = ground arith
letter_at-not_upper (String.◌∷◌ c s) (suc n) h = letter_at-not_upper s n (ground arith)

lower-not_upper : (c : Char) → not_upper (code (lower c)) ≡ true
unfolding all_chars
lower-not_upper c = elim (Bool-cases (is_upper (code c))) [
  | inl capital ↦ rw capital (letter_at-not_upper alphabet (code c - b'A') refl)
  | inr small ↦ rw small (rw small refl)
]

to_lower-IsLowering : IsLowering to_lower
unfolding all_chars
to_lower-IsLowering = record { lowers = lowers }
  where
    lowers : (s : String) → all_chars not_upper (to_lower s) ≡ true
    lowers String.[] = refl
    lowers (String.◌∷◌ c s) = rw (lower-not_upper c) (lowers s)

abbrev digest : String → String
digest s = "0a1b2c3d"

digest-IsDigest : IsDigest digest
unfolding all_chars first_is
digest-IsDigest = record { hex = λ s. refl; some_hex = λ s. refl }

escape_test :
    (escape_dns1123 to_lower digest "My_Redis.Instance--1." false ≡ "my-redis-instance-1")
    × (escape_dns1123 to_lower digest "system:node" true ≡ "system:node")
    × (escape_dns1123 to_lower digest "..." false ≡ "")
    × (escape_dns1123_label to_lower digest "a-very-long-name" 10 ≡ "a-ver-0a1b")
    × (escape_k8s_name to_lower digest "Role" "system:node" ≡ "system:node")
unfolding escape_dns1123 matches_label first_is last_is all_chars is_low is_inner is_alnum
    text_length dashed shortened escape_dns1123_label cut_label hash_string take escape_k8s_name
    trim_left trim_right
escape_test = (refl, refl, refl, refl, refl)

some_letter : all_chars not_alnum (to_lower "My_Redis.") ≡ false
unfolding all_chars is_alnum is_low
some_letter = refl

escape_dns1123_lem_example :
    Conforms false 253 (escape_dns1123 to_lower digest "My_Redis." false)
    × (escape_dns1123 to_lower digest (escape_dns1123 to_lower digest "My_Redis." false) false
        ≡ escape_dns1123 to_lower digest "My_Redis." false)
    × Conforms false 52 (escape_dns1123_label to_lower digest "My_Redis." 52)
    × (escape_dns1123_label to_lower digest (escape_dns1123_label to_lower digest "My_Redis." 52) 52
        ≡ escape_dns1123_label to_lower digest "My_Redis." 52)
escape_dns1123_lem_example =
    escape_dns1123_lem to_lower digest to_lower-IsLowering digest-IsDigest "My_Redis." false 52
      some_letter (omega arith)
