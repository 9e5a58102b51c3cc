-- ===== src/Validate.antt =====
-- The name checks of internal/validate/k8s.go. RFC 1123 names and label values are checked by the
-- apimachinery library, whose tests are parameters. A check is its success; the texts of its errors
-- are left out.
use kubernaut_apifrontend.Common.{
  ℕ, String, Bool, true, false, List, [], ◌∷◌, ◌&&◌, ◌||◌, not, leb, length, str_eq, codes,
}

-- `len(validation.IsDNS1123Label(s)) == 0` and so on.
pub record NameRules : Type 0 where
  pub is_dns1123_label : String → Bool
  pub is_dns1123_subdomain : String → Bool
  pub is_valid_label_value : String → Bool

unfoldable pub is_blank : String → Bool
is_blank s = str_eq s ""

-- [A-Za-z] and [A-Za-z0-9] of kindRE.
unfoldable pub is_letter : ℕ → Bool
is_letter c = (leb b'A' c && leb c b'Z') || (leb b'a' c && leb c b'z')

unfoldable pub is_kind_char : ℕ → Bool
unfolding is_letter
is_kind_char c = is_letter c || (leb b'0' c && leb c b'9')

unfoldable pub all_kind_chars : List ℕ → Bool
unfolding is_kind_char
all_kind_chars [] = true
all_kind_chars (c ∷ more) = is_kind_char c && all_kind_chars more

unfoldable pub matches_kind : List ℕ → Bool
unfolding all_kind_chars is_letter
matches_kind [] = false
matches_kind (c ∷ more) = is_letter c && all_kind_chars more

abbrev pub max_kind_len : ℕ
max_kind_len = 63

-- A text with a character outside ASCII matches no kind, so that its length in bytes does not count.
unfoldable pub valid_kind : String → Bool
unfolding is_blank matches_kind
valid_kind k = not (is_blank k) && leb (length (codes k)) max_kind_len && matches_kind (codes k)

module _ (rules : NameRules) where
  unfoldable pub valid_namespace : String → Bool
  unfolding is_blank
  valid_namespace ns = not (is_blank ns) && rules.is_dns1123_label ns

  unfoldable pub valid_resource_name : String → Bool
  unfolding is_blank
  valid_resource_name name = not (is_blank name) && rules.is_dns1123_subdomain name

  unfoldable pub valid_label_value : String → Bool
  valid_label_value v = rules.is_valid_label_value v
