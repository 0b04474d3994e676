-- ===== src/Update/Examples.antt =====
-- The theorems about versions, at concrete inputs.
use freedesk.Prelude.{◌≡◌, refl, [], ◌∷◌, ◌++◌, some, Text, text, pos, trim_space}
use freedesk.Update.{
  Release, newer, check, compare_versions, compare_from, version_parts, split_dots, before_suffix,
  trim_v, digits, atoi,
}
use freedesk.Update.Order.{IsNewer, check_newer}

parts_of_tag : version_parts (text " v1.20.x-rc1 ") ≡ 1 ∷ 20 ∷ 0 ∷ []
unfolding version_parts split_dots before_suffix trim_v digits atoi
parts_of_tag = refl

-- Parts are numbers, and a missing one is 0.
ten_after_nine : compare_versions (text "1.10") (text "v1.9.5") ≡ pos 1
unfolding compare_versions compare_from version_parts split_dots before_suffix trim_v digits atoi
ten_after_nine = refl

missing_is_zero : compare_versions (text "1.2") (text "1.2.0-dev") ≡ pos 0
unfolding compare_versions compare_from version_parts split_dots before_suffix trim_v digits atoi
missing_is_zero = refl

abbrev offered_release : Release
offered_release = record {
  version = text "0.5.0";
  url = text "https://github.com/a/b/releases/latest";
}

offers : check (text "a/b") (text "0.4.1") (some (text "v0.5.0")) ≡ newer offered_release
unfolding check compare_versions compare_from version_parts split_dots before_suffix trim_v digits
    atoi
offers = refl

check_newer_example :
    IsNewer offered_release.version (text "0.4.1")
    × (offered_release.version ≡ trim_v (trim_space (text "v0.5.0")))
    × (offered_release.url ≡ text "https://github.com/" ++ (text "a/b" ++ text "/releases/latest"))
    × ((later : Text) (s : Release)
        → check (text "a/b") offered_release.version (some later) ≡ newer s
        → IsNewer s.version (text "0.4.1"))
check_newer_example = check_newer (text "a/b") (text "0.4.1") (text "v0.5.0") offered_release offers
