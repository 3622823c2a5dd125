-- ===== src/Semver.antt =====
-- Release versions (togo/internal/semver/semver.go).
pub mod Bumps
mod Samples
use cappu.Base.{
  ℕ, ◌+◌, ◌-◌, ◌*◌, ◌%◌, ◌++◌, min, Bool, true, false, ◌&&◌, Option, none, some, Result, ok, err,
  List, [], ◌∷◌, if◌then◌else◌, ltb, leb, ◌==◌, Text, codes, text_eq, ◌||◌, decimal,
}

-- A step after one that may not match.
infixl 5 ◌>>=◌
abbrev pub ◌>>=◌ : {A B : Type 0} → Option A → (A → Option B) → Option B
none >>= f = none
some a >>= f = f a

-- Any other string bumps like "patch".
pub data ReleaseType : Type 0 where
  major : ReleaseType
  minor : ReleaseType
  patch : ReleaseType

unfoldable pub is_release_type : Text → Bool
is_release_type s =
    text_eq (codes "major") s || text_eq (codes "minor") s || text_eq (codes "patch") s

abbrev pub is_digit : ℕ → Bool
is_digit c = leb 48 c && leb c 57

-- The digits at the start, and what stands behind them.
unfoldable pub span : Text → Text × Text
span [] = ([], [])
span (c ∷ t) = let (digits, rest) = span t in if is_digit c then (c ∷ digits, rest) else ([], c ∷ t)

abbrev pub nonempty : Text × Text → Option (Text × Text)
nonempty ([], rest) = none
nonempty (d ∷ ds, rest) = some (d ∷ ds, rest)

-- \d+
unfoldable pub numeral : Text → Option (Text × Text)
numeral t = nonempty (span t)

-- \.
unfoldable pub dot : Text → Option Text
dot [] = none
dot (c ∷ t) = if c == 46 then some t else none

-- ^(\d+)\.(\d+)\.(\d+)
unfoldable pub core_prefix : Text → Option (Text × Text × Text)
core_prefix version = numeral version >>= λ a.
    dot a.1 >>= λ t. numeral t >>= λ b. dot b.1 >>= λ u. numeral u >>= λ c. some (a.0, b.0, c.0)

unfoldable pub number : ℕ → Text → ℕ
number acc [] = acc
number acc (c ∷ t) = number (acc * 10 + (c - 48)) t

-- strconv.Atoi of digits: the greatest integer in place of a greater one, whose error is dropped
unfoldable pub atoi : Text → ℕ
atoi t = min (number 0 t) 0x7fffffffffffffff

-- `n + 1`, which wraps around behind the greatest integer, as `%d` prints it.
unfoldable pub incremented : ℕ → Text
incremented n = if n == 0x7fffffffffffffff then codes "-9223372036854775808" else decimal (n + 1)

-- "%d.%d.%d"
abbrev pub version_text : Text → Text → Text → Text
version_text a b c = a ++ (codes "." ++ (b ++ (codes "." ++ c)))

unfoldable pub bumped : ReleaseType → Text × Text × Text → Text
bumped ReleaseType.major (a, b, c) = version_text (incremented (atoi a)) (codes "0") (codes "0")
bumped ReleaseType.minor (a, b, c) =
    version_text (decimal (atoi a)) (incremented (atoi b)) (codes "0")
bumped ReleaseType.patch (a, b, c) =
    version_text (decimal (atoi a)) (decimal (atoi b)) (incremented (atoi c))

unfoldable pub bump : Text → ReleaseType → Result Text
bump version release = elim (core_prefix version) [
  | none ↦ err (codes "not a semver version: " ++ version)
  | some parts ↦ ok (bumped release parts)
]
