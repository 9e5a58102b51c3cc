-- ===== src/Session/Labels.antt =====
-- The names and label values that internal/session/service.go gives to Kubernetes: the regular
-- expression validCRDName and sanitizeLabelValue. A text is the list of its characters.
pub mod Valid
use kubernaut_apifrontend.Common.{
  ℕ, ◌-◌, Bool, true, false, ◌&&◌, ◌||◌, List, [], ◌∷◌, ◌==◌, leb, ltb, if◌then◌else◌, length, take,
  truncate, map,
}
use mathlib.Core.List.{reverse}

unfoldable pub is_lower_alnum : ℕ → Bool
is_lower_alnum c = (leb b'a' c && leb c b'z') || (leb b'0' c && leb c b'9')

unfoldable pub is_alnum : ℕ → Bool
unfolding is_lower_alnum
is_alnum c = is_lower_alnum c || (leb b'A' c && leb c b'Z')

-- What the middle of validCRDName takes, with the last character behind it.
crd_name_rest : List ℕ → Bool
crd_name_rest [] = false
crd_name_rest (c ∷ []) = is_lower_alnum c
crd_name_rest (c ∷ d ∷ r) = (is_lower_alnum c || c == b'-') && crd_name_rest (d ∷ r)

-- `^[a-z0-9]([a-z0-9\-]{0,251}[a-z0-9])?$`
unfoldable pub valid_crd_name : List ℕ → Bool
unfolding is_lower_alnum crd_name_rest
valid_crd_name [] = false
valid_crd_name (c ∷ []) = is_lower_alnum c
valid_crd_name (c ∷ d ∷ r) = is_lower_alnum c && leb (length (d ∷ r)) 252 && crd_name_rest (d ∷ r)

-- The characters that invalidLabelChars, `[^a-zA-Z0-9._-]`, does not match.
unfoldable pub is_label_char : ℕ → Bool
unfolding is_alnum
is_label_char c = is_alnum c || c == b'.' || c == b'_' || c == b'-'

unfoldable pub replace_invalid : ℕ → ℕ
unfolding is_label_char
replace_invalid c = if is_label_char c then c else b'_'

-- strings.TrimLeft and TrimRight with the cutset "._-".
in_cutset : ℕ → Bool
in_cutset c = c == b'.' || c == b'_' || c == b'-'

unfoldable pub trim_left : List ℕ → List ℕ
unfolding in_cutset
trim_left [] = []
trim_left (c ∷ r) = if in_cutset c then trim_left r else c ∷ r

unfoldable pub trim_right : List ℕ → List ℕ
unfolding trim_left
trim_right v = reverse (trim_left (reverse v))

abbrev pub max_label_len : ℕ
max_label_len = 63

abbrev pub unknown : List ℕ
unknown = b'u' ∷ b'n' ∷ b'k' ∷ b'n' ∷ b'o' ∷ b'w' ∷ b'n' ∷ []

or_unknown : List ℕ → List ℕ
or_unknown [] = unknown
or_unknown (c ∷ r) = c ∷ r

unfoldable pub sanitize_label_value : List ℕ → List ℕ
unfolding replace_invalid trim_left trim_right or_unknown
sanitize_label_value v =
    let replaced = map replace_invalid v in
    let cut = truncate max_label_len replaced in or_unknown (trim_right (trim_left cut))
