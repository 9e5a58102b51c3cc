-- ===== src/Severity/Pipeline.antt =====
-- Triager.Triage of internal/severity/triage.go: the tiers one after the other.
pub mod Outcomes
use kubernaut_apifrontend.Common.{
  String, Bool, true, false, Option, none, some, List, [], ◌∷◌, if◌then◌else◌,
}
use kubernaut_apifrontend.Severity.Rank.{
  Source, unset, llm_rule_informed, llm_triage, TriageInput, Rule,
}
use kubernaut_apifrontend.Severity.Tiers.{
  TriageResult, TriageEnv, Config, RulesCache, Tier2, found, run_tier1, run_tier15, run_tier2,
  from_llm, fetch_rules,
}

pub data TriageError : Type 0 where
  context_error : String → TriageError
  tier3_failed : TriageError

pub data Answer (Confidence : Type 0) : Type 0 where
  answer : TriageResult Confidence → Answer Confidence
  failure : TriageError → Answer Confidence

module _ (e : TriageEnv) where
  open e use {World, cancelled, Confidence, triage_with_rules, triage_pure}

  abbrev pub Triaged : Type 0
  Triaged = World × RulesCache × Answer Confidence

  unfoldable pub run_tier3 : Config Confidence → RulesCache → World → TriageInput → Triaged
  run_tier3 cfg c w input =
      let (w', r) = triage_pure w input in
      (
        w',
        c,
        elim r [ none ↦ failure tier3_failed | some x ↦ answer (from_llm e cfg llm_triage x) ],
      )

  unfoldable pub run_tier25 :
      Config Confidence → World → TriageInput → List Rule → World × Option (TriageResult Confidence)
  run_tier25 cfg w input matched =
      let (w', r) = triage_with_rules w matched input in
      (w', elim r [ none ↦ none | some x ↦ some (from_llm e cfg llm_rule_informed x) ])

  -- Tier 2.5, for rules that matched, and tier 3.
  unfoldable pub run_llm :
      Config Confidence → RulesCache → World → TriageInput → List Rule → Triaged
  run_llm cfg c w input [] = run_tier3 cfg c w input
  run_llm cfg c w input (r ∷ more) =
      let (w', x) = run_tier25 cfg w input (r ∷ more) in
      elim x [ some y ↦ (w', c, answer y) | none ↦ run_tier3 cfg c w' input ]

  unfoldable pub run_rules :
      Config Confidence → RulesCache → World → TriageInput → List (List Rule) → Triaged
  run_rules cfg c w input groups = elim (run_tier15 e input groups) [
    | some x ↦ (w, c, answer x)
    | none ↦
        let t = run_tier2 e cfg w input groups in
        elim t.result [
          | some x ↦ (t.world, c, answer x)
          | none ↦ run_llm cfg c t.world input t.matched
        ]
  ]

  unfoldable pub after_tier1 : Config Confidence → RulesCache → World → TriageInput → Triaged
  after_tier1 cfg c w input = elim (cancelled w) [
    | some x ↦ (w, c, failure (context_error x))
    | none ↦
        let (w', c', r) = fetch_rules e c w in
        elim r [ none ↦ run_tier3 cfg c' w' input | some groups ↦ run_rules cfg c' w' input groups ]
  ]

  unfoldable pub triage_pipeline : Config Confidence → RulesCache → World → TriageInput → Triaged
  triage_pipeline cfg c w input = elim (cancelled w) [
    | some x ↦ (w, c, failure (context_error x))
    | none ↦
        let (w', r) = run_tier1 e w input in
        elim r [ some x ↦ (w', c, answer x) | none ↦ after_tier1 cfg c w' input ]
  ]

  unfoldable pub triage : Config Confidence → RulesCache → World → TriageInput → Triaged
  triage cfg c w input =
      if cfg.enabled then triage_pipeline cfg c w input else (w, c, answer (found e unset "" "" ""))
