-- ===== src/Severity/Rank/Labels.antt =====
-- What labelsOverlap (internal/severity/triage.go) and MatchesResource (internal/prometheus/rules.go)
-- test, as predicates on the label maps.
use kubernaut_apifrontend.Common.{
  String, ◌≡◌, refl, ◌≢◌, ◌↔◌, ◌⊎◌, ap, ◌∙◌, inl, inr, Bool, true, false, none, some, List, [], ◌∷◌,
  Bool-cases, Option-cases, str_eq, eq_iff,
}
use kubernaut_apifrontend.Common.All.{All, Any}
use kubernaut_apifrontend.Common.Dict.{Dict, lookup}
use kubernaut_apifrontend.Severity.Rank.{
  labels_overlap, overlap_loop, matches_resource, matches_loop,
}

-- The alert lacks the label, or has it with the same value.
abbrev pub Compatible : Dict String → String × String → Type 0
Compatible alert (k, v) = (lookup k alert ≡ none) ⊎ (lookup k alert ≡ some v)

abbrev pub Shared : Dict String → String × String → Type 0
Shared alert (k, v) = lookup k alert ≡ some v

overlap_loop-of :
    (alert target : Dict String) (m : Bool)
    → overlap_loop alert target m ≡ true
    → All (Compatible alert) target × ((m ≡ true) ⊎ Any (Shared alert) target)
unfolding overlap_loop
overlap_loop-of alert [] m h = (tt, inl h)
overlap_loop-of alert ((k, v) ∷ rest) m h = elim (Option-cases (lookup k alert)) [
  | inl missing ↦
      let (all, some_one) = overlap_loop-of alert rest m (rw (missing, overlap_loop) at h) in
      ((inl missing, all), later some_one)
  | inr (w, has) ↦ elim (Bool-cases (str_eq w v)) [
    | inl same ↦
        let (all, _) = overlap_loop-of alert rest true (rw (has, same, overlap_loop) at h) in
        let q : lookup k alert ≡ some v = has ∙ ap some ((eq_iff w v).0 same) in
        ((inr q, all), inr (inl q))
    | inr differs ↦ absurd (false-true (rw (has, differs, overlap_loop) at h))
  ]
]
  where
    false-true : false ≡ true → ⊥
    false-true h = cc

    later : (m ≡ true) ⊎ Any (Shared alert) rest → (m ≡ true) ⊎ Any (Shared alert) ((k, v) ∷ rest)
    later (inl e) = inl e
    later (inr any) = inr (inr any)

overlap_loop_if :
    (alert target : Dict String) (m : Bool)
    → All (Compatible alert) target
    → (m ≡ true) ⊎ Any (Shared alert) target
    → overlap_loop alert target m ≡ true
unfolding overlap_loop
overlap_loop_if alert [] m all (inl e) = e
overlap_loop_if alert [] m all (inr any) = absurd any
overlap_loop_if alert ((k, v) ∷ rest) m (inl missing, all) some_one =
    rw (missing, overlap_loop) (overlap_loop_if alert rest m all (later some_one))
  where
    later : (m ≡ true) ⊎ Any (Shared alert) ((k, v) ∷ rest) → (m ≡ true) ⊎ Any (Shared alert) rest
    later (inl e) = inl e
    later (inr (inl has)) = absurd cc
    later (inr (inr any)) = inr any
overlap_loop_if alert ((k, v) ∷ rest) m (inr has, all) some_one =
    rw (has, overlap_loop)
      (rw ((eq_iff v v).1 refl) (overlap_loop_if alert rest true all (inl refl)))

-- An alert overlaps with a target exactly when no label of the target has another value in the
-- alert, and at least one has the same value there.
pub labels_overlap_iff :
    (alert target : Dict String)
    → (labels_overlap alert target ≡ true)
      ↔ (All (Compatible alert) target × Any (Shared alert) target)
unfolding labels_overlap
labels_overlap_iff alert target = (
  λ h. let (all, any) = overlap_loop-of alert target false h in (all, pick any),
  λ h. overlap_loop_if alert target false h.0 (inr h.1),
)
  where
    pick : (false ≡ true) ⊎ Any (Shared alert) target → Any (Shared alert) target
    pick (inl e) = absurd cc
    pick (inr any) = any

module _ {M : Type 0} (name_of : M → String) (matches : M → String → Bool) where
  abbrev pub Satisfied : Dict String → M → Type 0
  Satisfied labels m = (v : String) × (lookup (name_of m) labels ≡ some v) × (matches m v ≡ true)

  matches_loop_iff :
      (labels : Dict String) (ms : List M)
      → (matches_loop name_of matches labels ms ≡ true) ↔ All (Satisfied labels) ms
  unfolding matches_loop
  matches_loop_iff labels [] = (λ h. tt, λ h. refl)
  matches_loop_iff labels (m ∷ rest) =
      let ih = matches_loop_iff labels rest in
      elim (Option-cases (lookup (name_of m) labels)) [
        | inl missing ↦ (
          λ h. let q : false ≡ true = rw (missing, matches_loop) at h in absurd cc,
          λ h. absurd (let q = h.0.1 in cc),
        )
        | inr (v, has) ↦ (
          λ h. elim (Bool-cases (matches m v)) [
            | inl good ↦ ((v, has, good), ih.0 (rw (has, good, matches_loop) at h))
            | inr bad ↦ let q : false ≡ true = rw (has, bad, matches_loop) at h in absurd cc
          ],
          λ h. let (u, has', good) = h.0 in rw (has', matches_loop) (rw (good) (ih.1 h.1)),
        )
      ]

  -- A rule's matchers are satisfied by a resource exactly when there is one at all, and the
  -- resource has for each of them its label, with a value that it matches.
  pub matches_resource_iff :
      (ms : List M) (labels : Dict String)
      → (matches_resource name_of matches ms labels ≡ true)
        ↔ ((ms ≢ []) × All (Satisfied labels) ms)
  unfolding matches_resource
  matches_resource_iff [] labels = (λ h. absurd cc, λ h. absurd (h.0 refl))
  matches_resource_iff (m ∷ rest) labels = (
    λ h. (λ e. cc, (matches_loop_iff labels (m ∷ rest)).0 h),
    λ h. (matches_loop_iff labels (m ∷ rest)).1 h.1,
  )
