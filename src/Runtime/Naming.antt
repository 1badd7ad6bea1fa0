-- ===== src/Runtime/Naming.antt =====
-- The names of Kubernetes objects: pkg/comp-functions/runtime/naming.go. A regular expression is the
-- test or the replacement that it stands for. Lengths and positions are those of characters: where
-- the code takes them, a name has only characters of one byte. strings.ToLower and the hex digits of
-- SHA-1 are parameters.
pub mod Conforms
pub mod Escape
use Prim.Native.Char.{Char, code}
use Prim.Native.String.{◌++◌ as text_append}
use appcat.Common.{
  ℕ, zero, suc, ◌-◌, leb, ltb, ◌==◌, Bool, true, false, ◌&&◌, ◌||◌, not, String, str_eq,
  if◌then◌else◌,
}
use appcat.Common.Text.{trim_left, trim_right}

-- [a-z0-9], [a-zA-Z0-9], and the characters inside a label, without or with colons.
unfoldable pub is_low : ℕ → Bool
is_low c = (leb b'a' c && leb c b'z') || (leb b'0' c && leb c b'9')

unfoldable pub is_alnum : ℕ → Bool
unfolding is_low
is_alnum c = is_low c || (leb b'A' c && leb c b'Z')

unfoldable pub is_inner : Bool → ℕ → Bool
is_inner colons c = is_low c || c == b'-' || (colons && c == b':')

abbrev pub not_alnum : ℕ → Bool
not_alnum c = not (is_alnum c)

-- The tests on the characters of a text.

unfoldable pub all_chars : (ℕ → Bool) → String → Bool
all_chars p String.[] = true
all_chars p (String.◌∷◌ c s) = p (code c) && all_chars p s

unfoldable pub first_is : (ℕ → Bool) → String → Bool
first_is p String.[] = false
first_is p (String.◌∷◌ c s) = p (code c)

unfoldable pub last_is : (ℕ → Bool) → String → Bool
last_is p String.[] = false
last_is p (String.◌∷◌ c String.[]) = p (code c)
last_is p (String.◌∷◌ c (String.◌∷◌ d s)) = last_is p (String.◌∷◌ d s)

unfoldable pub text_length : String → ℕ
text_length String.[] = 0
text_length (String.◌∷◌ c s) = suc (text_length s)

unfoldable pub take : ℕ → String → String
take zero s = String.[]
take (suc n) String.[] = String.[]
take (suc n) (String.◌∷◌ c s) = String.◌∷◌ c (take n s)

-- "^[a-z0-9]([-a-z0-9]*[a-z0-9])?$", without or with colons.
unfoldable pub matches_label : Bool → String → Bool
matches_label colons name =
    first_is is_low name && last_is is_low name && all_chars (is_inner colons) name

-- Each run of characters that match [^a-zA-Z0-9] becomes a dash; `inside` says whether such a run has
-- begun before the text.
unfoldable pub dashed : Bool → String → String
dashed inside String.[] = String.[]
dashed inside (String.◌∷◌ c s) =
    let rest = dashed (not_alnum (code c)) s in
    if is_alnum (code c) then String.◌∷◌ c rest else (if inside then rest else String.◌∷◌ "-" rest)

module _ (to_lower sha1_hex : String → String) where
  unfoldable pub hash_string : String → String
  hash_string name = String.◌∷◌ "-" (take 4 (sha1_hex name))

  unfoldable pub shortened : String → String
  shortened name =
      if ltb 253 (text_length name) then text_append (take 248 name) (hash_string name) else name

  unfoldable pub escape_dns1123 : String → Bool → String
  escape_dns1123 name allow_colons =
      if matches_label allow_colons name && leb (text_length name) 253
      then name
      else shortened (trim_right not_alnum (trim_left not_alnum (dashed false (to_lower name))))

  unfoldable pub cut_label : String → ℕ → String
  cut_label name length =
      if ltb length (text_length name)
      then text_append (take (length - 5) name) (hash_string name)
      else name

  unfoldable pub escape_dns1123_label : String → ℕ → String
  escape_dns1123_label name length = cut_label (escape_dns1123 name false) length

  -- The name that an object of a kind gets; the kind is empty if the scheme does not know it.
  unfoldable pub escape_k8s_name : String → String → String
  escape_k8s_name kind name =
      if str_eq kind "Pod" || str_eq kind "Service"
      then escape_dns1123_label name 63
      else (if str_eq kind "CronJob"
          then escape_dns1123_label name 52
          else escape_dns1123 name (
              str_eq kind "Role"
              || str_eq kind "ClusterRole"
              || str_eq kind "RoleBinding"
              || str_eq kind "ClusterRoleBinding"))
