-- ===== src/Maintenance/Semver.antt =====
-- github.com/blang/semver/v4, which is not in this repository's sources.
use appcat.Common.{ℕ, Bool, true, ◌||◌, String, List, Option, ◌≡◌}

-- `pre` has the identifiers of a pre-release; Go's nil is the empty list.
pub record Version : Type 0 where
  pub major : ℕ
  pub minor : ℕ
  pub patch : ℕ
  pub pre : List String
  pub build : List String

-- ParseTolerant, New, LTE, EQ and String. A text that is no version is `none`.
pub record Semver : Type 0 where
  pub parse_tolerant : String → Option Version
  pub new : String → Option Version
  pub lte : Version → Version → Bool
  pub eq : Version → Version → Bool
  pub print : Version → String

-- Versions are in a total order.
pub record IsOrder (s : Semver) : Type 0 where
  pub total : (a b : Version) → (s.lte a b || s.lte b a) ≡ true
  pub trans : (a b d : Version) → s.lte a b ≡ true → s.lte b d ≡ true → s.lte a d ≡ true
