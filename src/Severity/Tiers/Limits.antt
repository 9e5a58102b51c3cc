-- ===== src/Severity/Tiers/Limits.antt =====
-- What tier 2 of internal/severity/triage.go costs and what it answers.
use kubernaut_apifrontend.Common.{
  ℕ, suc, ◌≤◌, ◌<◌, String, ◌≡◌, refl, inl, inr, sym, subst, true, false, Option, none, some, List,
  [], ◌∷◌, ◌++◌, arith, Bool-cases, Option-cases, if◌then◌else◌, str_eq, length, length-append,
}
use kubernaut_apifrontend.Common.All.{All, Any, All-append}
use kubernaut_apifrontend.Common.Dict.{Dict}
use kubernaut_apifrontend.Common.Int.{ℤ, pos, pos_part, ltb_ℤ}
use kubernaut_apifrontend.Severity.Rank.{rule_evaluation, TriageInput, Rule, label}
use kubernaut_apifrontend.Severity.Tiers.{
  TriageResult, TriageEnv, Config, Tier2, found, rule_matches, at_limit, tier2_query, tier2_rule,
  tier2_rules, tier2_groups, run_tier2,
}

at_limit-lt : (max : ℤ) (n : ℕ) → at_limit max n ≡ false → n < pos_part max
unfolding at_limit
at_limit-lt max n h = ground arith

module _ (e : TriageEnv) where
  open e use {World, Confidence, instant_query}

  abbrev pub Eligible : Dict String → Rule → Type 0
  Eligible target r = (str_eq r.state "inactive" ≡ true) × (rule_matches e target r ≡ true)

  abbrev pub Evaluated : List Rule → Option (TriageResult Confidence) → Type 0
  Evaluated matched none = Unit {0}
  Evaluated matched (some x) =
      Any (λ r. x ≡ found e rule_evaluation (label "severity" r.labels) "" r.name) matched

  -- From one world to another by a number of calls of InstantQuery, and by nothing else.
  pub data Queries (before : World) : ℕ → World → Type 0 where
    not_asked : Queries before 0 before
    asked_again :
        {n : ℕ} {w : World} (query : String)
        → Queries before n w
        → Queries before (suc n) (instant_query w query).0

  -- What holds of the loops' state: both limits, the matched rules inactive and matching, and a
  -- result that is one of theirs.
  record Limited (cfg : Config Confidence) (target : Dict String) (before : World) (t : Tier2 e)
      : Type 0 where
    rules : length t.matched ≤ pos_part cfg.max_rules_evaluated
    queries : t.queries ≤ pos_part cfg.max_queries_per_call
    asked : Queries before t.queries t.world
    eligible : All (Eligible target) t.matched
    evaluated : Evaluated t.matched t.result

  Any-last : (P : Rule → Type 0) (rs : List Rule) (r : Rule) → P r → Any P (rs ++ r ∷ [])
  Any-last P [] r h = inl h
  Any-last P (x ∷ rs) r h = inr (Any-last P rs r h)

  tier2_query-Limited :
      (cfg : Config Confidence) (target : Dict String) (before : World) (r : Rule)
      (matched : List Rule) (t : Tier2 e)
      → t.matched ≡ matched ++ r ∷ []
      → t.result ≡ none
      → Limited cfg target before t
      → Limited cfg target before (tier2_query e cfg.max_queries_per_call r t)
  unfolding tier2_query
  tier2_query-Limited cfg target before r matched t last unanswered b =
      let x = found e rule_evaluation (label "severity" r.labels) "" r.name in
      let P : Rule → Type 0 =
        λ s. x ≡ found e rule_evaluation (label "severity" s.labels) "" s.name in
      let here : Any P t.matched = subst (Any P) (sym last) (Any-last P matched r refl) in
      elim (Bool-cases (at_limit cfg.max_queries_per_call t.queries)) [
        | inl full ↦ rw (full) b
        | inr free ↦ rw (free) (record {
          rules = b.rules;
          queries = omega (arith, at_limit-lt cfg.max_queries_per_call t.queries free);
          asked = asked_again r.query b.asked;
          eligible = b.eligible;
          evaluated = evaluated here (instant_query t.world r.query).1;
        })
      ]
    where
      evaluated :
          Any
            (λ s.
              found e rule_evaluation (label "severity" r.labels) "" r.name
              ≡ found e rule_evaluation (label "severity" s.labels) "" s.name)
            t.matched
          → (q : Option ℕ)
          → Evaluated t.matched (elim q [
            | none ↦ t.result
            | some samples ↦
                if ltb_ℤ (pos 0) (pos samples)
                then some (found e rule_evaluation (label "severity" r.labels) "" r.name)
                else t.result
          ])
      evaluated here none = rw unanswered tt
      evaluated here (some samples) = elim (Bool-cases (ltb_ℤ (pos 0) (pos samples))) [
        | inl any ↦ rw any here
        | inr empty ↦ rw (empty, unanswered) tt
      ]

  tier2_rule-Limited :
      (cfg : Config Confidence) (target : Dict String) (before : World) (r : Rule) (t : Tier2 e)
      → at_limit cfg.max_rules_evaluated (length t.matched) ≡ false
      → t.result ≡ none
      → Limited cfg target before t
      → Limited cfg target before (tier2_rule e cfg target r t)
  unfolding tier2_rule
  tier2_rule-Limited cfg target before r t free unanswered b =
      elim (Bool-cases (str_eq r.state "inactive")) [
        | inr busy ↦ rw (busy) b
        | inl inactive ↦ elim (Bool-cases (rule_matches e target r)) [
          | inr apart ↦ rw (inactive, apart) b
          | inl same ↦
              rw (inactive, same)
                (tier2_query-Limited cfg target before r t.matched _ refl unanswered (record {
                  rules = omega (
                    arith,
                    length-append t.matched (r ∷ []),
                    at_limit-lt cfg.max_rules_evaluated (length t.matched) free,
                  );
                  queries = b.queries;
                  asked = b.asked;
                  eligible =
                      All-append (Eligible target) t.matched (r ∷ []) b.eligible
                        ((inactive, same), tt);
                  evaluated = rw unanswered tt;
                }))
        ]
      ]

  tier2_rules-Limited :
      (cfg : Config Confidence) (target : Dict String) (before : World) (rules : List Rule)
      (t : Tier2 e)
      → Limited cfg target before t
      → Limited cfg target before (tier2_rules e cfg target rules t)
  unfolding tier2_rules
  tier2_rules-Limited cfg target before [] t b = b
  tier2_rules-Limited cfg target before (r ∷ rest) t b = elim (Option-cases t.result) [
    | inr (x, k) ↦ rw (k, tier2_rules) b
    | inl unanswered ↦ elim (Bool-cases (at_limit cfg.max_rules_evaluated (length t.matched))) [
      | inl full ↦ rw (unanswered, tier2_rules) (rw (full) b)
      | inr free ↦
          rw (unanswered, tier2_rules)
            (rw (free) (
              tier2_rules-Limited cfg target before rest (tier2_rule e cfg target r t)
                (tier2_rule-Limited cfg target before r t free unanswered b)))
    ]
  ]

  tier2_groups-Limited :
      (cfg : Config Confidence) (target : Dict String) (before : World) (groups : List (List Rule))
      (t : Tier2 e)
      → Limited cfg target before t
      → Limited cfg target before (tier2_groups e cfg target groups t)
  unfolding tier2_groups
  tier2_groups-Limited cfg target before [] t b = b
  tier2_groups-Limited cfg target before (g ∷ rest) t b =
      tier2_groups-Limited cfg target before rest _ (tier2_rules-Limited cfg target before g t b)

  pub record Bounded (cfg : Config Confidence) (target : Dict String) (before : World) (t : Tier2 e)
      : Type 0 where
    pub rules : length t.matched ≤ pos_part cfg.max_rules_evaluated
    pub number : ℕ
    pub asked : Queries before number t.world
    pub queries : number ≤ pos_part cfg.max_queries_per_call
    pub eligible : All (Eligible target) t.matched
    pub evaluated : Evaluated t.matched t.result

  -- Tier 2 matches at most MaxRulesEvaluated rules over all groups. It leaves the world as a number
  -- of calls of InstantQuery leaves it, which is at most MaxQueriesPerCall (none, for a limit below
  -- 1). Every matched rule is inactive and matches the target, and a result is the severity and the
  -- name of one of them.
  pub run_tier2-Bounded :
      (cfg : Config Confidence) (w : World) (input : TriageInput) (groups : List (List Rule))
      → Bounded cfg input.labels w (run_tier2 e cfg w input groups)
  unfolding run_tier2
  run_tier2-Bounded cfg w input groups =
      let b =
        tier2_groups-Limited cfg input.labels w groups
          (record { world = w; matched = []; queries = 0; result = none })
          (record {
            rules = omega arith;
            queries = omega arith;
            asked = not_asked;
            eligible = tt;
            evaluated = tt;
          }) in
      record {
        rules = b.rules;
        number = (run_tier2 e cfg w input groups).queries;
        asked = b.asked;
        queries = b.queries;
        eligible = b.eligible;
        evaluated = b.evaluated;
      }
