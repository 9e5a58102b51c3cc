-- ===== src/Session/Labels/Valid.antt =====
-- sanitizeLabelValue gives a value that Kubernetes accepts, and leaves such a value alone.
use mathlib.Core.List.{reverse, reverse-cons, reverse-append, reverse-reverse}
use kubernaut_apifrontend.Common.{
  ℕ, ◌≤◌, ◌≡◌, refl, ◌⊎◌, inl, inr, true, false, List, [], ◌∷◌, ◌++◌, arith, length, truncate, map,
  Bool-cases, ltb, length-truncate-le,
}
use kubernaut_apifrontend.Common.All.{
  All, All-change, All-take, All-reverse, All-map, length-reverse,
}
use kubernaut_apifrontend.Session.Labels.{
  is_lower_alnum, is_alnum, is_label_char, replace_invalid, in_cutset, trim_left, trim_right,
  or_unknown, unknown, max_label_len, sanitize_label_value,
}

abbrev Kept : ℕ → Type 0
Kept c = is_label_char c ≡ true

abbrev StartsKept : List ℕ → Type 0
StartsKept [] = ⊥
StartsKept (c ∷ r) = is_alnum c ≡ true

-- The same rule in terms of the program's own tests.
record KeptValue (v : List ℕ) : Type 0 where
  short : length v ≤ max_label_len
  chars : All Kept v
  starts : StartsKept v
  ends : StartsKept (reverse v)

replace_invalid-Kept : (c : ℕ) → Kept (replace_invalid c)
unfolding replace_invalid
replace_invalid-Kept c = ground arith

alnum_of_Kept : (c : ℕ) → Kept c → in_cutset c ≡ false → is_alnum c ≡ true
unfolding is_label_char in_cutset
alnum_of_Kept c h k = ground arith

kept_of_alnum : (c : ℕ) → is_alnum c ≡ true → in_cutset c ≡ false
unfolding is_alnum in_cutset
kept_of_alnum c h = ground arith

All-trim_left : (v : List ℕ) → All Kept v → All Kept (trim_left v)
unfolding trim_left
All-trim_left [] h = h
All-trim_left (c ∷ r) h = elim (Bool-cases (in_cutset c)) [
  | inl cut ↦ rw cut (All-trim_left r h.1)
  | inr kept ↦ rw kept h
]

length-trim_left-le : (v : List ℕ) → length (trim_left v) ≤ length v
unfolding trim_left
length-trim_left-le [] = omega arith
length-trim_left-le (c ∷ r) = ground (arith, length-trim_left-le r)

trim_left-starts : (v : List ℕ) → All Kept v → (trim_left v ≡ []) ⊎ StartsKept (trim_left v)
unfolding trim_left
trim_left-starts [] h = inl refl
trim_left-starts (c ∷ r) h = elim (Bool-cases (in_cutset c)) [
  | inl cut ↦ rw cut (trim_left-starts r h.1)
  | inr kept ↦ inr (rw kept (alnum_of_Kept c h.0 kept))
]

-- An end that is kept stays the end.
trim_left-append :
    (v : List ℕ) (c : ℕ)
    → in_cutset c ≡ false
    → (w : List ℕ) × (trim_left (v ++ c ∷ []) ≡ w ++ c ∷ [])
unfolding trim_left
trim_left-append [] c k = ([], rw k)
trim_left-append (d ∷ v) c k = elim (Bool-cases (in_cutset d)) [
  | inl cut ↦ rw cut (trim_left-append v c k)
  | inr kept ↦ (d ∷ v, rw kept)
]

trim_left_of_starts : (v : List ℕ) → StartsKept v → trim_left v ≡ v
unfolding trim_left
trim_left_of_starts [] h = absurd h
trim_left_of_starts (c ∷ r) h = rw (kept_of_alnum c h)

trim_right_starts : (v : List ℕ) → StartsKept v → StartsKept (trim_right v)
unfolding trim_right
trim_right_starts [] h = absurd h
trim_right_starts (c ∷ r) h =
    let (w, e) = trim_left-append (reverse r) c (kept_of_alnum c h) in
    rw (reverse-cons c r, e, reverse-append w (c ∷ [])) h

trim_right-ends :
    (v : List ℕ) → All Kept v → StartsKept (trim_right v) → StartsKept (reverse (trim_right v))
unfolding trim_right
trim_right-ends v h s = elim (trim_left-starts (reverse v) (All-reverse Kept v h)) [
  | inl empty ↦ absurd (rw empty at s)
  | inr full ↦ rw (reverse-reverse (trim_left (reverse v))) full
]

length-trim_right-le : (v : List ℕ) → length (trim_right v) ≤ length v
unfolding trim_right
length-trim_right-le v = omega (
  arith,
  length-reverse (trim_left (reverse v)),
  length-trim_left-le (reverse v),
  length-reverse v,
)

All-trim_right : (v : List ℕ) → All Kept v → All Kept (trim_right v)
unfolding trim_right
All-trim_right v h = All-reverse Kept _ (All-trim_left (reverse v) (All-reverse Kept v h))

unknown-KeptValue : KeptValue unknown
unfolding is_label_char is_alnum
unknown-KeptValue = record {
  short = omega arith;
  chars = (refl, (refl, (refl, (refl, (refl, (refl, (refl, tt)))))));
  starts = refl;
  ends = refl;
}

-- A trimmed text of label characters is empty, or a label value but for its length.
trimmed_cases :
    (v : List ℕ)
    → All Kept v
    → (trim_right (trim_left v) ≡ [])
      ⊎ (StartsKept (trim_right (trim_left v)) × StartsKept (reverse (trim_right (trim_left v))))
unfolding trim_right
trimmed_cases v h = elim (trim_left-starts v h) [
  | inl empty ↦ inl (rw empty)
  | inr full ↦
      let s = trim_right_starts (trim_left v) full in
      inr (s, trim_right-ends (trim_left v) (All-trim_left v h) s)
]

or_unknown-KeptValue :
    (v : List ℕ)
    → length v ≤ max_label_len
    → All Kept v
    → (v ≡ []) ⊎ (StartsKept v × StartsKept (reverse v))
    → KeptValue (or_unknown v)
unfolding or_unknown
or_unknown-KeptValue [] short chars ends = unknown-KeptValue
or_unknown-KeptValue (c ∷ r) short chars (inl e) = cc
or_unknown-KeptValue (c ∷ r) short chars (inr (s, t)) = record {
  short = short;
  chars = chars;
  starts = s;
  ends = t;
}

abbrev cut : List ℕ → List ℕ
cut v = truncate max_label_len v

length-cut-le : (v : List ℕ) → length (cut v) ≤ max_label_len
length-cut-le v = length-truncate-le max_label_len v

All-cut : (v : List ℕ) → All Kept v → All Kept (cut v)
All-cut v h = elim (Bool-cases (ltb max_label_len (length v))) [
  | inl long ↦ rw long (All-take Kept max_label_len v h)
  | inr fits ↦ rw fits h
]

sanitize_label_value-KeptValue : (v : List ℕ) → KeptValue (sanitize_label_value v)
unfolding sanitize_label_value
sanitize_label_value-KeptValue v =
    let replaced = map replace_invalid v in
    let h = All-cut replaced (All-map Kept replace_invalid v replace_invalid-Kept) in
    or_unknown-KeptValue (trim_right (trim_left (cut replaced)))
      (omega (
        arith,
        length-trim_right-le (trim_left (cut replaced)),
        length-trim_left-le (cut replaced),
        length-cut-le replaced,
      ))
      (All-trim_right (trim_left (cut replaced)) (All-trim_left (cut replaced) h))
      (trimmed_cases (cut replaced) h)

map-replace_invalid : (v : List ℕ) → All Kept v → map replace_invalid v ≡ v
unfolding replace_invalid
map-replace_invalid [] h = refl
map-replace_invalid (c ∷ r) h = rw (h.0, map-replace_invalid r h.1)

trim_right_of_ends : (v : List ℕ) → StartsKept (reverse v) → trim_right v ≡ v
unfolding trim_right
trim_right_of_ends v h = rw (trim_left_of_starts (reverse v) h) (reverse-reverse v)

or_unknown_of_starts : (v : List ℕ) → StartsKept v → or_unknown v ≡ v
unfolding or_unknown
or_unknown_of_starts [] h = absurd h
or_unknown_of_starts (c ∷ r) h = refl

cut_of_short : (v : List ℕ) → length v ≤ max_label_len → cut v ≡ v
cut_of_short v h = ground arith

kept_fixed : (v : List ℕ) → KeptValue v → sanitize_label_value v ≡ v
unfolding sanitize_label_value
kept_fixed v h = rw (
  map-replace_invalid v h.chars,
  cut_of_short v h.short,
  trim_left_of_starts v h.starts,
  trim_right_of_ends v h.ends,
  or_unknown_of_starts v h.starts,
)

-- A letter of ASCII, or a digit.
abbrev pub IsAlnum : ℕ → Type 0
IsAlnum c = ((97 ≤ c) × (c ≤ 122)) ⊎ (((65 ≤ c) × (c ≤ 90)) ⊎ ((48 ≤ c) × (c ≤ 57)))

-- A letter, a digit, '-', '.' or '_'.
abbrev pub IsLabelChar : ℕ → Type 0
IsLabelChar c = IsAlnum c ⊎ ((c ≡ 45) ⊎ ((c ≡ 46) ⊎ (c ≡ 95)))

abbrev pub StartsAlnum : List ℕ → Type 0
StartsAlnum [] = ⊥
StartsAlnum (c ∷ r) = IsAlnum c

-- The Kubernetes rule for a label value that is not empty.
pub record IsLabelValue (v : List ℕ) : Type 0 where
  pub short : length v ≤ 63
  pub chars : All IsLabelChar v
  pub starts : StartsAlnum v
  pub ends : StartsAlnum (reverse v)

is_alnum-IsAlnum : (c : ℕ) → is_alnum c ≡ true → IsAlnum c
unfolding is_alnum is_lower_alnum
is_alnum-IsAlnum c h = ground arith

IsAlnum-is_alnum : (c : ℕ) → IsAlnum c → is_alnum c ≡ true
unfolding is_alnum is_lower_alnum
IsAlnum-is_alnum c h = ground arith

Kept-IsLabelChar : (c : ℕ) → Kept c → IsLabelChar c
unfolding is_label_char is_alnum is_lower_alnum
Kept-IsLabelChar c h = ground arith

IsLabelChar-Kept : (c : ℕ) → IsLabelChar c → Kept c
unfolding is_label_char is_alnum is_lower_alnum
IsLabelChar-Kept c h = ground arith

StartsKept-StartsAlnum : (v : List ℕ) → StartsKept v → StartsAlnum v
StartsKept-StartsAlnum [] h = h
StartsKept-StartsAlnum (c ∷ r) h = is_alnum-IsAlnum c h

StartsAlnum-StartsKept : (v : List ℕ) → StartsAlnum v → StartsKept v
StartsAlnum-StartsKept [] h = h
StartsAlnum-StartsKept (c ∷ r) h = IsAlnum-is_alnum c h

-- Whatever text it is given, the result is a valid label value: 1 to 63 characters of
-- [a-zA-Z0-9._-], the first and the last a letter or a digit.
pub sanitize_label_value-IsLabelValue : (v : List ℕ) → IsLabelValue (sanitize_label_value v)
sanitize_label_value-IsLabelValue v =
    let k = sanitize_label_value-KeptValue v in
    record {
      short = k.short;
      chars = All-change Kept-IsLabelChar _ k.chars;
      starts = StartsKept-StartsAlnum _ k.starts;
      ends = StartsKept-StartsAlnum _ k.ends;
    }

-- A valid label value is left as it is.
pub sanitize_label_value_fixed : (v : List ℕ) → IsLabelValue v → sanitize_label_value v ≡ v
sanitize_label_value_fixed v h = kept_fixed v (record {
  short = h.short;
  chars = All-change IsLabelChar-Kept v h.chars;
  starts = StartsAlnum-StartsKept v h.starts;
  ends = StartsAlnum-StartsKept _ h.ends;
})

-- Sanitizing once is enough.
pub sanitize_label_value_idem :
    (v : List ℕ) → sanitize_label_value (sanitize_label_value v) ≡ sanitize_label_value v
sanitize_label_value_idem v =
    sanitize_label_value_fixed (sanitize_label_value v) (sanitize_label_value-IsLabelValue v)
