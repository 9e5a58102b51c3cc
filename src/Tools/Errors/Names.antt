-- ===== src/Tools/Errors/Names.antt =====
-- ParseRRID (internal/tools/helpers.go) reads back the IDs that the tools give.
use kubernaut_apifrontend.Common.{
  ◌==◌, ◌≡◌, ◌≢◌, refl, ap, sym, subst, ◌∙◌, ◌↔◌, inl, inr, String, some, arith, Bool-cases,
  Option-cases, eq_iff, ==_iff,
}
use Prim.Native.Char.{Char, code}
use Prim.Native.String
use Prim.Native.String.append
use text.Mathlib.TextEquality.{Char-path}
use kubernaut_apifrontend.Validate.{is_blank}
use kubernaut_apifrontend.Tools.Errors.{ok, split_slash, rr_id_of, parse_rr_id}

abbrev slash : Char
slash = "/"

abbrev pub HasNoSlash : String → Type 0
HasNoSlash String.[] = Unit
HasNoSlash (String.◌∷◌ c s) = (code c ≢ b'/') × HasNoSlash s

rr_id_of_blank : (b : String) → rr_id_of "" b ≡ String.◌∷◌ slash b
unfolding rr_id_of
rr_id_of_blank b =
    append.nil (String.◌++◌ "/" b)
    ∙ (append.cons slash "" b ∙ ap (λ x. String.◌∷◌ slash x) (append.nil b))

rr_id_of_cons :
    (c : Char) (a b : String) → rr_id_of (String.◌∷◌ c a) b ≡ String.◌∷◌ c (rr_id_of a b)
unfolding rr_id_of
rr_id_of_cons c a b = append.cons c a (String.◌++◌ "/" b)

split_slash-cons :
    (c : Char) (s a b : String)
    → code c ≢ b'/'
    → split_slash s ≡ some (a, b)
    → split_slash (String.◌∷◌ c s) ≡ some (String.◌∷◌ c a, b)
unfolding split_slash
split_slash-cons c s a b n h = ground (arith, n, h)

split_slash-rr_id_of : (a b : String) → HasNoSlash a → split_slash (rr_id_of a b) ≡ some (a, b)
unfolding split_slash
split_slash-rr_id_of String.[] b h = rw (rr_id_of_blank b) refl
split_slash-rr_id_of (String.◌∷◌ c a) b h =
    ap split_slash (rr_id_of_cons c a b)
    ∙ split_slash-cons c (rr_id_of a b) a b h.0 (split_slash-rr_id_of a b h.1)

split_slash-some :
    (s a b : String) → split_slash s ≡ some (a, b) → (s ≡ rr_id_of a b) × HasNoSlash a
unfolding split_slash
split_slash-some String.[] a b h = cc
split_slash-some (String.◌∷◌ c s) a b h = elim (Bool-cases (code c == b'/')) [
  | inl found ↦
      let p : (a ≡ "") × (b ≡ s) = ground arith in
      let q : c ≡ slash = Char-path c slash ((==_iff (code c) b'/').0 found) in
      rw p.0 (rw p.1 (ap (λ x. String.◌∷◌ x s) q ∙ sym (rr_id_of_blank s), tt))
  | inr other ↦ elim (Option-cases (split_slash s)) [
    | inl gone ↦ absurd (ground arith)
    | inr ((a', b'), rest) ↦
        let ih = split_slash-some s a' b' rest in
        let p : (a ≡ String.◌∷◌ c a') × (b ≡ b') = ground arith in
        rw p.0 (
          rw p.1 (
            ap (λ x. String.◌∷◌ c x) ih.0 ∙ sym (rr_id_of_cons c a' b'),
            ((λ e. ground arith), ih.1),
          ))
  ]
]

-- A non-empty request ID is read as a namespace and a name exactly if it is the ID of these two: both
-- are non-empty, and there is no slash in the namespace. What else is given does not matter then.
pub parse_rr_id-iff-rr_id_of :
    (rr_id namespace name a b : String)
    → rr_id ≢ ""
    → (parse_rr_id rr_id namespace name ≡ ok (a, b))
      ↔ ((rr_id ≡ rr_id_of a b) × HasNoSlash a × (a ≢ "") × (b ≢ ""))
unfolding parse_rr_id is_blank
parse_rr_id-iff-rr_id_of rr_id namespace name a b given = (read, written)
  where
    read :
        parse_rr_id rr_id namespace name ≡ ok (a, b)
        → (rr_id ≡ rr_id_of a b) × HasNoSlash a × (a ≢ "") × (b ≢ "")
    read h = elim (Option-cases (split_slash rr_id)) [
      | inl gone ↦ absurd (ground (arith, eq_iff rr_id ""))
      | inr ((a', b'), found) ↦
          let p : (a ≡ a') × (b ≡ b') × (a' ≢ "") × (b' ≢ "") =
            ground (arith, eq_iff rr_id "", eq_iff a' "", eq_iff b' "") in
          let q = split_slash-some rr_id a' b' found in
          (
            rw p.0 (rw p.1 q.0),
            subst HasNoSlash (sym p.0) q.1,
            (λ e. p.2 (sym p.0 ∙ e)),
            (λ e. p.3 (sym p.1 ∙ e)),
          )
    ]

    written :
        (rr_id ≡ rr_id_of a b) × HasNoSlash a × (a ≢ "") × (b ≢ "")
        → parse_rr_id rr_id namespace name ≡ ok (a, b)
    written h =
        let found : split_slash rr_id ≡ some (a, b) =
          ap split_slash h.0 ∙ split_slash-rr_id_of a b h.1 in
        ground (arith, found, h.2, h.3, eq_iff rr_id "", eq_iff a "", eq_iff b "")
