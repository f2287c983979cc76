-- ===== src/Manifest/Tags.antt =====
-- manifest.py: the regular expression of tags.
use Prim.Native.Char.{code}
use Prim.Native.String.{[], ◌∷◌, count}
use turbohaul_manager_rocm.Prelude.{
  ℕ, String, Bool, false, ◌&&◌, ◌||◌, if◌then◌else◌, leb, eqb, ok, err, chop, all_codes,
}
use turbohaul_manager_rocm.Manifest.{Checked, bad_tag}

abbrev pub between : ℕ → ℕ → ℕ → Bool
between lo hi n = leb lo n && leb n hi

abbrev pub is_tag_start : ℕ → Bool
is_tag_start c = between b'a' b'z' c || between b'0' b'9' c

abbrev pub is_tag_char : ℕ → Bool
is_tag_char c = is_tag_start c || eqb c b'.' || eqb c b'_' || eqb c b'-'

abbrev pub fits_tag : String → Bool
fits_tag [] = false
fits_tag (c ∷ s) = is_tag_start (code c) && leb (count s) 63 && all_codes is_tag_char s

-- `TAG_RE.match`.
unfoldable pub tag_re : String → Bool
unfolding chop all_codes
tag_re tag = fits_tag (chop tag)

unfoldable pub validate_tag : String → Checked
unfolding tag_re
validate_tag tag = if tag_re tag then ok tt else err bad_tag
