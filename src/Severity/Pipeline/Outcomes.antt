-- ===== src/Severity/Pipeline/Outcomes.antt =====
-- Which tier answers, and when Triage fails (internal/severity/triage.go, cache.go).
use kubernaut_apifrontend.Common.{
  ℕ, String, ◌≡◌, refl, inl, inr, ◌≢◌, Option, none, some, List, [], ◌∷◌, Bool-cases, Option-cases,
  ◌∙◌, ap, sym,
}
use kubernaut_apifrontend.Common.Int.{pos, ◌≤ℤ◌, ltb_ℤ, ltb_ℤ_of_le}
use kubernaut_apifrontend.Severity.Rank.{TriageInput, Rule}
use kubernaut_apifrontend.Severity.Tiers.{
  TriageResult, TriageEnv, Config, RulesCache, get, set, fetch_rules, run_tier1, run_tier15,
  run_tier2,
}
use kubernaut_apifrontend.Severity.Pipeline.{
  context_error, tier3_failed, Answer, answer, failure, run_tier3, run_tier25, run_llm, run_rules,
  after_tier1, triage_pipeline, triage,
}

module _ (e : TriageEnv) where
  open e use {World, now, get_rules, Confidence, cancelled, triage_pure}

  abbrev Cached : List (List Rule) → World → World × RulesCache × Option (List (List Rule)) → Type 0
  Cached groups v r = fetch_rules e r.1 v ≡ (v, r.1, some groups)

  hit :
      (c : RulesCache) (v : World) (groups : List (List Rule))
      → c.groups ≡ some groups
      → pos (now v) ≤ℤ c.expire_at
      → Cached groups v (v, c, some groups)
  unfolding fetch_rules get
  hit c v groups h k = simp (h, ltb_ℤ_of_le c.expire_at (pos (now v)) k, fetch_rules, get) refl

  got :
      (c : RulesCache) (t : ℕ) (groups : List (List Rule))
      → get c t ≡ some groups
      → c.groups ≡ some groups
  unfolding get
  got c t groups h = elim (Option-cases c.groups) [
    | inl k ↦ absurd (let q : none ≡ some groups = simp (k, get) at h in cc)
    | inr (gs, k) ↦ elim (Bool-cases (ltb_ℤ c.expire_at (pos t))) [
      | inl old ↦ absurd (let q : none ≡ some groups = simp (k, old, get) at h in cc)
      | inr fresh ↦ let q : some gs ≡ some groups = simp (k, fresh, get) at h in k ∙ q
    ]
  ]

  -- The ways in which a triage can fail: a cancelled context, seen in some world, or the LLM's
  -- failure in the last tier. Nothing else stops it.
  pub data Failure (input : TriageInput) : Answer Confidence → Type 0 where
    answered : (x : TriageResult Confidence) → Failure input (answer x)
    context :
        (w : World) (x : String) → cancelled w ≡ some x → Failure input (failure (context_error x))
    llm : (w : World) → (triage_pure w input).1 ≡ none → Failure input (failure tier3_failed)

  run_tier3-Failure :
      (cfg : Config Confidence) (c : RulesCache) (w : World) (input : TriageInput)
      → Failure input (run_tier3 e cfg c w input).2
  unfolding run_tier3
  run_tier3-Failure cfg c w input = elim (Option-cases (triage_pure w input).1) [
    | inl k ↦ rw (k, run_tier3) (llm w k)
    | inr (x, k) ↦ rw (k, run_tier3) (answered _)
  ]

  run_llm-Failure :
      (cfg : Config Confidence) (c : RulesCache) (w : World) (input : TriageInput)
      (rules : List Rule)
      → Failure input (run_llm e cfg c w input rules).2
  unfolding run_llm
  run_llm-Failure cfg c w input [] = run_tier3-Failure cfg c w input
  run_llm-Failure cfg c w input (r ∷ more) =
      elim (Option-cases (run_tier25 e cfg w input (r ∷ more)).1) [
        | inl k ↦
            rw (k, run_llm) (run_tier3-Failure cfg c (run_tier25 e cfg w input (r ∷ more)).0 input)
        | inr (x, k) ↦ rw (k, run_llm) (answered x)
      ]

  run_rules-Failure :
      (cfg : Config Confidence) (c : RulesCache) (w : World) (input : TriageInput)
      (groups : List (List Rule))
      → Failure input (run_rules e cfg c w input groups).2
  unfolding run_rules
  run_rules-Failure cfg c w input groups = elim (Option-cases (run_tier15 e input groups)) [
    | inr (x, k) ↦ rw (k, run_rules) (answered x)
    | inl k ↦ elim (Option-cases (run_tier2 e cfg w input groups).result) [
      | inr (x, q) ↦ rw (k, run_rules) (rw (q, run_rules) (answered x))
      | inl q ↦
          let t = run_tier2 e cfg w input groups in
          rw (k, run_rules) (rw (q, run_rules) (run_llm-Failure cfg c t.world input t.matched))
    ]
  ]

  after_tier1-Failure :
      (cfg : Config Confidence) (c : RulesCache) (w : World) (input : TriageInput)
      → Failure input (after_tier1 e cfg c w input).2
  unfolding after_tier1
  after_tier1-Failure cfg c w input = elim (Option-cases (cancelled w)) [
    | inr (x, k) ↦ rw (k, after_tier1) (context w x k)
    | inl k ↦
        let (w', c', r) = fetch_rules e c w in
        elim (Option-cases (fetch_rules e c w).2) [
          | inl q ↦ rw (k, after_tier1) (rw (q, after_tier1) (run_tier3-Failure cfg c' w' input))
          | inr (groups, q) ↦
              rw (k, after_tier1) (rw (q, after_tier1) (run_rules-Failure cfg c' w' input groups))
        ]
  ]

  triage_pipeline-Failure :
      (cfg : Config Confidence) (c : RulesCache) (w : World) (input : TriageInput)
      → Failure input (triage_pipeline e cfg c w input).2
  unfolding triage_pipeline
  triage_pipeline-Failure cfg c w input = elim (Option-cases (cancelled w)) [
    | inr (x, k) ↦ rw (k, triage_pipeline) (context w x k)
    | inl k ↦ elim (Option-cases (run_tier1 e w input).1) [
      | inr (x, q) ↦ rw (k, triage_pipeline) (rw (q, triage_pipeline) (answered x))
      | inl q ↦
          rw (k, triage_pipeline)
            (rw (q, triage_pipeline) (after_tier1-Failure cfg c (run_tier1 e w input).0 input))
    ]
  ]

  -- Whatever Prometheus, the rules cache and the LLM answer, Triage fails only with the error of
  -- a cancelled context or because the pure LLM triage failed; otherwise it answers a result.
  pub triage-Failure :
      (cfg : Config Confidence) (c : RulesCache) (w : World) (input : TriageInput)
      → Failure input (triage e cfg c w input).2
  unfolding triage
  triage-Failure cfg c w input = elim (Bool-cases cfg.enabled) [
    | inr off ↦ simp (off, triage) (answered _)
    | inl on ↦ simp (on, triage) (triage_pipeline-Failure cfg c w input)
  ]

  abbrev Fetched : Type 0
  Fetched = World × RulesCache × Option (List (List Rule))

  fetched_groups :
      (c c' : RulesCache) (w w' : World) (groups : List (List Rule))
      → fetch_rules e c w ≡ (w', c', some groups)
      → groups ≢ []
      → c'.groups ≡ some groups
  unfolding fetch_rules set
  fetched_groups c c' w w' groups h some_rule = elim (Option-cases (get c (now w))) [
    | inr (gs, g) ↦
        let q : ◌≡◌ {A = Fetched} (w, c, some gs) (w', c', some groups) =
          simp (g, fetch_rules) at h in
        ap (λ (z : Fetched). z.1.groups) (sym q)
        ∙ (got c (now w) gs g ∙ ap (λ (z : Fetched). z.2) q)
    | inl g ↦ go g (get_rules w).1 refl
  ]
    where
      go :
          get c (now w) ≡ none
          → (r : Option (List (List Rule))) → (get_rules w).1 ≡ r
          → c'.groups ≡ some groups
      go g none r =
          let q : ◌≡◌ {A = Fetched} ((get_rules w).0, c, none) (w', c', some groups) =
            simp (g, r, fetch_rules) at h in
          absurd (let p = ap (λ (z : Fetched). z.2) q in cc)
      go g (some []) r =
          let q : ◌≡◌ {A = Fetched} ((get_rules w).0, c, some []) (w', c', some groups) =
            simp (g, r, fetch_rules) at h in
          absurd (
            let p : some [] ≡ some groups = ap (λ (z : Fetched). z.2) q in
            let p' : groups ≡ [] = cc in some_rule p')
      go g (some (first ∷ more)) r =
          let u = (get_rules w).0 in
          let q : ◌≡◌ {A = Fetched} (u, set c (now u) (first ∷ more), some (first ∷ more))
              (w', c', some groups) =
            simp (g, r, fetch_rules) at h in
          ap (λ (z : Fetched). z.1.groups) (sym q) ∙ ap (λ (z : Fetched). z.2) q

  -- Rules that were fetched, and are not an empty list, are answered again without a call of
  -- Prometheus and without a change of the cache, in any world whose clock has not passed the
  -- cache's expiry.
  pub fetch_rules_again :
      (c c' : RulesCache) (w w' v : World) (groups : List (List Rule))
      → fetch_rules e c w ≡ (w', c', some groups)
      → groups ≢ []
      → pos (now v) ≤ℤ c'.expire_at
      → fetch_rules e c' v ≡ (v, c', some groups)
  fetch_rules_again c c' w w' v groups h some_rule k =
      hit c' v groups (fetched_groups c c' w w' groups h some_rule) k
