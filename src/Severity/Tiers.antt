-- ===== src/Severity/Tiers.antt =====
-- The tiers of Triager.triagePipeline, and its rules cache (internal/severity/triage.go, cache.go).
-- The Prometheus client, the LLM, the clock and the request's context are outside the repository's
-- control: fields of `TriageEnv`. Log lines and metrics are left out.
pub mod Best
pub mod Limits
use kubernaut_apifrontend.Common.{
  ℕ, ◌*◌, String, Bool, true, false, Option, none, some, List, [], ◌∷◌, ◌++◌, if◌then◌else◌, str_eq,
  length, suc, not, ◌||◌, ◌&&◌,
}
use kubernaut_apifrontend.Common.Dict.{Dict}
use kubernaut_apifrontend.Common.Int.{ℤ, pos, ltb_ℤ, ◌+ℤ◌}
use kubernaut_apifrontend.Severity.Rank.{
  Source, unset, firing_alert, pending_alert, rule_evaluation, llm_rule_informed, llm_triage,
  TriageInput, Alert, Rule, compare_severity, label, labels_overlap, matches_resource,
}

-- `Confidence` is float64. The name of an alert or a rule is empty where it is not set.
pub record TriageResult (Confidence : Type 0) : Type 0 where
  pub severity : String
  pub source : Source
  pub alert_name : String
  pub rule_name : String
  pub confidence : Confidence

pub record TriageEnv : Type 1 where
  pub World : Type 0
  pub now : World → ℕ
  -- ctx.Err()
  pub cancelled : World → Option String
  pub get_alerts : World → World × Option (List Alert)
  pub get_rules : World → World × Option (List (List Rule))
  -- The number of samples that a query answers, or `none` for an error.
  pub instant_query : World → String → World × Option ℕ
  pub Matcher : Type 0
  pub matcher_name : Matcher → String
  pub matches : Matcher → String → Bool
  pub extract_label_matchers : String → Option (List Matcher)
  pub Confidence : Type 0
  pub zero_confidence : Confidence
  pub lt : Confidence → Confidence → Bool
  pub triage_with_rules : World → List Rule → TriageInput → World × Option (TriageResult Confidence)
  pub triage_pure : World → TriageInput → World × Option (TriageResult Confidence)

-- A candidate: a severity with the alert's or the rule's name.
pub record Offer : Type 0 where
  pub severity : String
  pub name : String

abbrev pub nothing_yet : Offer
nothing_yet = record { severity = ""; name = "" }

-- `if bestSeverity == "" || CompareSeverity(sev, bestSeverity) > 0`.
unfoldable pub better : Offer → Offer → Offer
better new best =
    if str_eq best.severity "" || ltb_ℤ (pos 0) (compare_severity new.severity best.severity)
    then new
    else best

-- A nil slice of groups is `none`.
pub record RulesCache : Type 0 where
  pub groups : Option (List (List Rule))
  pub expire_at : ℤ
  pub ttl : ℤ

abbrev pub new_rules_cache : ℤ → RulesCache
new_rules_cache ttl = record { groups = none; expire_at = pos 0; ttl = ttl }

unfoldable pub get : RulesCache → ℕ → Option (List (List Rule))
get c now = elim c.groups [
  | none ↦ none
  | some groups ↦ if ltb_ℤ c.expire_at (pos now) then none else some groups
]

unfoldable pub set : RulesCache → ℕ → List (List Rule) → RulesCache
unfolding ◌+ℤ◌
set c now groups = record c { groups = some groups; expire_at = pos now +ℤ c.ttl }

pub record Config (Confidence : Type 0) : Type 0 where
  pub enabled : Bool
  pub max_queries_per_call : ℤ
  pub max_rules_evaluated : ℤ
  pub llm_confidence : Confidence

alert_offer : Alert → Offer
alert_offer a = record { severity = label "severity" a.labels; name = label "alertname" a.labels }

rule_offer : Rule → Offer
rule_offer r = record { severity = label "severity" r.labels; name = r.name }

unfoldable pub tier1_loop : Dict String → List Alert → Offer → Offer
unfolding better labels_overlap alert_offer
tier1_loop target [] best = best
tier1_loop target (a ∷ rest) best = tier1_loop target rest (
    if not (str_eq a.state "firing")
    then best
    else (if not (labels_overlap a.labels target) then best else better (alert_offer a) best))

-- `len(matchedRules) >= MaxRulesEvaluated`, and the same for the queries.
at_limit : ℤ → ℕ → Bool
at_limit max n = not (ltb_ℤ (pos n) max)

module _ (e : TriageEnv) where
  open e use {
    World, now, get_alerts, get_rules, instant_query, extract_label_matchers, matcher_name, matches,
    Confidence, zero_confidence, lt, triage_with_rules, triage_pure,
  }

  abbrev pub found : Source → String → String → String → TriageResult Confidence
  found source severity alert rule = record {
    severity = severity;
    source = source;
    alert_name = alert;
    rule_name = rule;
    confidence = zero_confidence;
  }

  unfoldable pub run_tier1 : World → TriageInput → World × Option (TriageResult Confidence)
  unfolding tier1_loop
  run_tier1 w input = elim input.labels [
    | [] ↦ (w, none)
    | _ ∷ _ ↦
        let (w', r) = get_alerts w in
        elim r [
          | none ↦ (w', none)
          | some alerts ↦
              let best = tier1_loop input.labels alerts nothing_yet in
              (
                w',
                if not (str_eq best.severity "")
                    then some (found firing_alert best.severity best.name "")
                    else none,
              )
        ]
  ]

  -- ExtractLabelMatchers with MatchesResource; an error of the first is no match.
  unfoldable pub rule_matches : Dict String → Rule → Bool
  unfolding matches_resource
  rule_matches target r = elim (extract_label_matchers r.query) [
    | none ↦ false
    | some matchers ↦ matches_resource matcher_name matches matchers target
  ]

  unfoldable pub tier15_rules : Dict String → List Rule → Offer → Offer
  unfolding rule_matches rule_offer better
  tier15_rules target [] best = best
  tier15_rules target (r ∷ rest) best = tier15_rules target rest (
      if not (str_eq r.state "pending")
      then best
      else (if not (rule_matches target r) then best else better (rule_offer r) best))

  unfoldable pub tier15_groups : Dict String → List (List Rule) → Offer → Offer
  unfolding tier15_rules
  tier15_groups target [] best = best
  tier15_groups target (g ∷ rest) best = tier15_groups target rest (tier15_rules target g best)

  unfoldable pub run_tier15 : TriageInput → List (List Rule) → Option (TriageResult Confidence)
  unfolding tier15_groups
  run_tier15 input groups =
      let best = tier15_groups input.labels groups nothing_yet in
      if not (str_eq best.severity "")
      then some (found pending_alert best.severity "" best.name)
      else none

  -- What the loops of tier 2 carry: the matched rules, oldest first, and the query count.
  pub record Tier2 : Type 0 where
    pub world : World
    pub matched : List Rule
    pub queries : ℕ
    pub result : Option (TriageResult Confidence)

  -- The part of the body behind `append`.
  tier2_query : ℤ → Rule → Tier2 → Tier2
  unfolding at_limit
  tier2_query max_queries r t =
      if at_limit max_queries t.queries
      then t
      else (let (w', q) = instant_query t.world r.query in
          record t {
            world = w';
            queries = suc t.queries;
            result = elim q [
              | none ↦ t.result
              | some samples ↦
                  if ltb_ℤ (pos 0) (pos samples)
                  then some (found rule_evaluation (label "severity" r.labels) "" r.name)
                  else t.result
            ];
          })

  tier2_rule : Config Confidence → Dict String → Rule → Tier2 → Tier2
  unfolding at_limit tier2_query rule_matches
  tier2_rule cfg target r t =
      if not (str_eq r.state "inactive")
      then t
      else (if not (rule_matches target r)
          then t
          else tier2_query cfg.max_queries_per_call r (record t { matched = t.matched ++ r ∷ [] }))

  -- A result ends the loops, the limit on rules the inner one.
  unfoldable pub tier2_rules : Config Confidence → Dict String → List Rule → Tier2 → Tier2
  unfolding tier2_rule at_limit
  tier2_rules cfg target [] t = t
  tier2_rules cfg target (r ∷ rest) t =
      let later = tier2_rules cfg target rest (tier2_rule cfg target r t) in
      elim t.result [
        | some _ ↦ t
        | none ↦ if at_limit cfg.max_rules_evaluated (length t.matched) then t else later
      ]

  unfoldable pub tier2_groups : Config Confidence → Dict String → List (List Rule) → Tier2 → Tier2
  unfolding tier2_rules
  tier2_groups cfg target [] t = t
  tier2_groups cfg target (g ∷ rest) t = tier2_groups cfg target rest (tier2_rules cfg target g t)

  unfoldable pub run_tier2 : Config Confidence → World → TriageInput → List (List Rule) → Tier2
  unfolding tier2_groups
  run_tier2 cfg w input groups =
      tier2_groups cfg input.labels groups
        (record { world = w; matched = []; queries = 0; result = none })

  -- What tiers 2.5 and 3 make of the LLM's answer.
  unfoldable pub from_llm :
      Config Confidence → Source → TriageResult Confidence → TriageResult Confidence
  from_llm cfg source r =
      if lt zero_confidence r.confidence && lt r.confidence cfg.llm_confidence
      then record r { source = source; severity = "medium" }
      else record r { source = source }

  unfoldable pub fetch_rules : RulesCache → World → World × RulesCache × Option (List (List Rule))
  unfolding get set
  fetch_rules c w = elim (get c (now w)) [
    | some groups ↦ (w, c, some groups)
    | none ↦
        let (w', r) = get_rules w in
        elim r [
          | none ↦ (w', c, none)
          | some [] ↦ (w', c, some [])
          | some (g ∷ more) ↦ (w', set c (now w') (g ∷ more), some (g ∷ more))
        ]
  ]
