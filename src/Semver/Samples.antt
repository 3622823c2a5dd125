-- ===== src/Semver/Samples.antt =====
-- Tests and examples of release versions.
use cappu.Base.{ok, codes, decimal, text_eq, true, ◌≡◌, refl, ◌++◌, ◌+◌, arith}
use cappu.Semver.{
  ReleaseType, is_release_type, span, numeral, dot, core_prefix, number, atoi, incremented,
  version_text, bumped, bump,
}
use cappu.Semver.Bumps.{NoDigit, bump-print}

test_bump :
    (bump (codes "1.2.3-SNAPSHOT") ReleaseType.patch ≡ ok (codes "1.2.4"))
    × (bump (codes "01.9.3") ReleaseType.minor ≡ ok (codes "1.10.0"))
unfolding bump bumped core_prefix numeral dot span atoi number incremented decimal
test_bump = (refl, refl)

test_release_type : is_release_type (codes "minor") ≡ true
unfolding is_release_type text_eq
test_release_type = refl

snapshot-NoDigit : NoDigit (codes "-SNAPSHOT")
unfolding span
snapshot-NoDigit = refl

bump-print_example :
    (bump (version_text (decimal 1) (decimal 2) (decimal 3 ++ codes "-SNAPSHOT")) ReleaseType.major
      ≡ ok (version_text (decimal (1 + 1)) (codes "0") (codes "0")))
    × (bump
          (version_text (decimal 1) (decimal 2) (decimal 3 ++ codes "-SNAPSHOT"))
          ReleaseType.minor
        ≡ ok (version_text (decimal 1) (decimal (2 + 1)) (codes "0")))
    × (bump
          (version_text (decimal 1) (decimal 2) (decimal 3 ++ codes "-SNAPSHOT"))
          ReleaseType.patch
        ≡ ok (version_text (decimal 1) (decimal 2) (decimal (3 + 1))))
bump-print_example =
    bump-print 1 2 3 (codes "-SNAPSHOT") (omega arith) (omega arith) (omega arith) snapshot-NoDigit
