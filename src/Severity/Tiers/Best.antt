-- ===== src/Severity/Tiers/Best.antt =====
-- The alert and the rule that the tiers 1 and 1.5 of internal/severity/triage.go choose.
use kubernaut_apifrontend.Common.{
  ℕ, ◌≤◌, String, ◌≡◌, refl, ap, ◌∙◌, ◌≢◌, ◌⊎◌, inl, inr, List, [], ◌∷◌, ◌++◌, arith, Bool-cases,
  if◌then◌else◌, str_eq, eq_iff, ◌&&◌, ltb, ltb→lt, ltb_false→le,
}
use kubernaut_apifrontend.Common.All.{All, Any}
use kubernaut_apifrontend.Common.Dict.{Dict}
use kubernaut_apifrontend.Common.Int.{sub_ℕ, ltb_ℤ, pos}
use kubernaut_apifrontend.Severity.Rank.{Alert, Rule, severity_rank, labels_overlap}
use kubernaut_apifrontend.Severity.Tiers.{
  TriageEnv, Offer, nothing_yet, better, alert_offer, rule_offer, tier1_loop, rule_matches,
  tier15_rules, tier15_groups,
}

-- What tier 1 chooses from: the firing alerts that overlap with the target.
pub firing_offers : Dict String → List Alert → List Offer
firing_offers target [] = []
firing_offers target (a ∷ rest) =
    let more = firing_offers target rest in
    if str_eq a.state "firing" && labels_overlap a.labels target then alert_offer a ∷ more else more

-- What tier 1.5 chooses from: the pending rules that match the target.
pub pending_offers : (e : TriageEnv) → Dict String → List Rule → List Offer
pending_offers e target [] = []
pending_offers e target (r ∷ rest) =
    let more = pending_offers e target rest in
    if str_eq r.state "pending" && rule_matches e target r then rule_offer r ∷ more else more

pub all_rules : List (List Rule) → List Rule
all_rules [] = []
all_rules (g ∷ rest) = g ++ all_rules rest

-- The choice is the highest of the offers, or no offer has a severity.
pub data Chosen (offers : List Offer) (b : Offer) : Type 0 where
  no_severity : b.severity ≡ "" → All (λ o. o.severity ≡ "") offers → Chosen offers b
  highest :
      b.severity ≢ ""
      → Any (λ o. b ≡ o) offers
      → All (λ o. severity_rank o.severity ≤ severity_rank b.severity) offers
      → Chosen offers b

-- The loop over the offers alone.
best_of : List Offer → Offer → Offer
best_of [] b = b
best_of (o ∷ rest) b = best_of rest (better o b)

severity_rank_of_empty : (s : String) → s ≡ "" → severity_rank s ≡ 0
unfolding severity_rank
severity_rank_of_empty s h = rw h

is_higher : (m n : ℕ) → ltb_ℤ (pos 0) (sub_ℕ m n) ≡ ltb n m
is_higher m n = ground arith

better-rank :
    (o b : Offer)
    → (severity_rank b.severity ≤ severity_rank (better o b).severity)
      × (severity_rank o.severity ≤ severity_rank (better o b).severity)
unfolding better
better-rank o b =
    let m = severity_rank o.severity in
    let n = severity_rank b.severity in
    let unset = severity_rank_of_empty b.severity in
    elim (Bool-cases (str_eq b.severity "")) [
      | inl empty ↦
          let z = unset ((eq_iff b.severity "").0 empty) in rw (empty) (omega arith, omega arith)
      | inr full ↦ elim (Bool-cases (ltb n m)) [
        | inl higher ↦
            rw (full, is_higher m n, higher) (omega (arith, ltb→lt n m higher), omega arith)
        | inr lower ↦
            rw (full, is_higher m n, lower) (omega arith, omega (arith, ltb_false→le n m lower))
      ]
    ]

better-empty : (o b : Offer) → (better o b).severity ≡ "" → (b.severity ≡ "") × (o.severity ≡ "")
unfolding better
better-empty o b h =
    let m = severity_rank o.severity in
    let n = severity_rank b.severity in
    elim (Bool-cases (str_eq b.severity "")) [
      | inl empty ↦ ((eq_iff b.severity "").0 empty, rw (empty, better) at h)
      | inr full ↦ elim (Bool-cases (ltb n m)) [
        | inl higher ↦
            let e : o.severity ≡ "" = rw (full, is_higher m n, higher, better) at h in
            absurd (
              let q = severity_rank_of_empty o.severity e in
              let l = ltb→lt n m higher in omega arith)
        | inr lower ↦
            let e : b.severity ≡ "" = rw (full, is_higher m n, lower, better) at h in
            let q = (eq_iff b.severity "").1 e in absurd cc
      ]
    ]

better_cases : (o b : Offer) → (better o b ≡ o) ⊎ (better o b ≡ b)
unfolding better
better_cases o b = ground arith

record Best (offers : List Offer) (b r : Offer) : Type 0 where
  above : severity_rank b.severity ≤ severity_rank r.severity
  all_above : All (λ o. severity_rank o.severity ≤ severity_rank r.severity) offers
  from : (r ≡ b) ⊎ Any (λ o. r ≡ o) offers
  empty : r.severity ≡ "" → (b.severity ≡ "") × All (λ o. o.severity ≡ "") offers

best_of-Best : (offers : List Offer) (b : Offer) → Best offers b (best_of offers b)
unfolding best_of
best_of-Best [] b = record {
  above = omega arith;
  all_above = tt;
  from = inl refl;
  empty = λ h. (h, tt);
}
best_of-Best (o ∷ rest) b =
    let ih = best_of-Best rest (better o b) in
    let (low, high) = better-rank o b in
    record {
      above = omega (arith, ih.above);
      all_above = (omega (arith, ih.above), ih.all_above);
      from = from ih.from (better_cases o b);
      empty = λ h.
          let (now, later) = ih.empty h in
          let (old, new) = better-empty o b now in (old, (new, later));
    }
  where
    from :
        (best_of rest (better o b) ≡ better o b) ⊎ Any (λ x. best_of rest (better o b) ≡ x) rest
        → (better o b ≡ o) ⊎ (better o b ≡ b)
        → (best_of rest (better o b) ≡ b) ⊎ Any (λ x. best_of rest (better o b) ≡ x) (o ∷ rest)
    from (inr later) _ = inr (inr later)
    from (inl e) (inl new) = inr (inl (e ∙ new))
    from (inl e) (inr old) = inl (e ∙ old)

best_of-Chosen : (offers : List Offer) → Chosen offers (best_of offers nothing_yet)
best_of-Chosen offers =
    let r = best_of offers nothing_yet in
    let best = best_of-Best offers nothing_yet in
    elim (Bool-cases (str_eq r.severity "")) [
      | inl empty ↦ let e = (eq_iff r.severity "").0 empty in no_severity e (best.empty e).1
      | inr some_severity ↦
          let n : r.severity ≢ "" = λ e. let q = (eq_iff r.severity "").1 e in cc in
          highest n (chosen n best.from) best.all_above
    ]
  where
    chosen :
        (best_of offers nothing_yet).severity ≢ ""
        → (best_of offers nothing_yet ≡ nothing_yet)
          ⊎ Any (λ o. best_of offers nothing_yet ≡ o) offers
        → Any (λ o. best_of offers nothing_yet ≡ o) offers
    chosen n (inl e) = absurd (n (ap (λ z. z.severity) e))
    chosen n (inr any) = any

tier1_loop-best_of :
    (target : Dict String) (alerts : List Alert) (b : Offer)
    → tier1_loop target alerts b ≡ best_of (firing_offers target alerts) b
unfolding tier1_loop best_of firing_offers
tier1_loop-best_of target [] b = refl
tier1_loop-best_of target (a ∷ rest) b = elim (Bool-cases (str_eq a.state "firing")) [
  | inr quiet ↦ rw (quiet) (tier1_loop-best_of target rest b)
  | inl firing ↦ elim (Bool-cases (labels_overlap a.labels target)) [
    | inr apart ↦ rw (firing, apart) (tier1_loop-best_of target rest b)
    | inl same ↦ rw (firing, same) (tier1_loop-best_of target rest (better (alert_offer a) b))
  ]
]

-- The loop of tier 1 chooses the highest severity among the firing alerts that overlap with the
-- target, with that alert's name, or no such alert has a severity.
pub tier1_loop-Chosen :
    (target : Dict String) (alerts : List Alert)
    → Chosen (firing_offers target alerts) (tier1_loop target alerts nothing_yet)
tier1_loop-Chosen target alerts =
    rw (tier1_loop-best_of target alerts nothing_yet) (best_of-Chosen (firing_offers target alerts))

module _ (e : TriageEnv) where
  best_of-append :
      (xs ys : List Offer) (b : Offer) → best_of (xs ++ ys) b ≡ best_of ys (best_of xs b)
  unfolding best_of
  best_of-append [] ys b = refl
  best_of-append (x ∷ xs) ys b = best_of-append xs ys (better x b)

  tier15_rules-best_of :
      (target : Dict String) (rules : List Rule) (b : Offer)
      → tier15_rules e target rules b ≡ best_of (pending_offers e target rules) b
  unfolding tier15_rules best_of pending_offers
  tier15_rules-best_of target [] b = refl
  tier15_rules-best_of target (r ∷ rest) b = elim (Bool-cases (str_eq r.state "pending")) [
    | inr quiet ↦ rw (quiet) (tier15_rules-best_of target rest b)
    | inl pending ↦ elim (Bool-cases (rule_matches e target r)) [
      | inr apart ↦ rw (pending, apart) (tier15_rules-best_of target rest b)
      | inl same ↦ rw (pending, same) (tier15_rules-best_of target rest (better (rule_offer r) b))
    ]
  ]

  pending_offers-append :
      (target : Dict String) (xs ys : List Rule)
      → pending_offers e target (xs ++ ys)
        ≡ pending_offers e target xs ++ pending_offers e target ys
  unfolding pending_offers
  pending_offers-append target [] ys = refl
  pending_offers-append target (x ∷ xs) ys =
      elim (Bool-cases (str_eq x.state "pending" && rule_matches e target x)) [
        | inl offered ↦ rw (offered, pending_offers-append target xs ys)
        | inr passed ↦ rw (passed, pending_offers-append target xs ys)
      ]

  tier15_groups-best_of :
      (target : Dict String) (groups : List (List Rule)) (b : Offer)
      → tier15_groups e target groups b ≡ best_of (pending_offers e target (all_rules groups)) b
  unfolding tier15_groups all_rules
  tier15_groups-best_of target [] b = unfold pending_offers best_of in refl
  tier15_groups-best_of target (g ∷ rest) b = rw (
    tier15_rules-best_of target g b,
    tier15_groups-best_of target rest (best_of (pending_offers e target g) b),
    pending_offers-append target g (all_rules rest),
    best_of-append (pending_offers e target g) (pending_offers e target (all_rules rest)) b,
  )

  -- The loops of tier 1.5 choose the highest severity among the pending rules of all groups that
  -- match the target, with that rule's name, or no such rule has a severity.
  pub tier15_groups-Chosen :
      (target : Dict String) (groups : List (List Rule))
      → Chosen
          (pending_offers e target (all_rules groups))
          (tier15_groups e target groups nothing_yet)
  tier15_groups-Chosen target groups =
      rw (tier15_groups-best_of target groups nothing_yet)
        (best_of-Chosen (pending_offers e target (all_rules groups)))
