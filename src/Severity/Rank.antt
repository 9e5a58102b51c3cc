-- ===== src/Severity/Rank.antt =====
-- Severities and the data that the triage reads (internal/severity/types.go,
-- internal/prometheus/types.go and rules.go). Label matchers are Prometheus': a parameter.
pub mod Labels
use kubernaut_apifrontend.Common.{
  ℕ, String, Bool, true, false, Option, none, some, List, [], ◌∷◌, if◌then◌else◌, str_eq,
}
use kubernaut_apifrontend.Common.Dict.{Dict, lookup}
use kubernaut_apifrontend.Common.Int.{ℤ, pos, sub_ℕ, ltb_ℤ}

pub data Source : Type 0 where
  unset firing_alert pending_alert rule_evaluation llm_rule_informed llm_triage : Source

pub record TriageInput : Type 0 where
  pub namespace : String
  pub kind : String
  pub name : String
  pub description : String
  pub labels : Dict String

-- The fields that the triage reads.
pub record Alert : Type 0 where
  pub labels : Dict String
  pub state : String

pub record Rule : Type 0 where
  pub name : String
  pub query : String
  pub labels : Dict String
  pub state : String

-- A key that is missing from `severityRank` has the rank 0.
unfoldable pub severity_rank : String → ℕ
severity_rank s =
    if str_eq s "critical"
    then 5
    else (if str_eq s "high"
        then 4
        else (if str_eq s "medium"
            then 3
            else (if str_eq s "low" then 2 else (if str_eq s "info" then 1 else 0))))

abbrev pub compare_severity : String → String → ℤ
compare_severity a b = sub_ℕ (severity_rank a) (severity_rank b)

highest_loop : List String → String → String
highest_loop [] best = best
highest_loop (s ∷ rest) best =
    highest_loop rest (if ltb_ℤ (pos 0) (compare_severity s best) then s else best)

unfoldable pub highest_severity : List String → String
unfolding highest_loop
highest_severity [] = ""
highest_severity (s ∷ rest) = highest_loop rest s

-- `m[key]`, empty where the key is missing.
unfoldable pub label : String → Dict String → String
unfolding lookup
label key m = elim (lookup key m) [ none ↦ "" | some v ↦ v ]

-- The loop over the target's labels, with the number of matches so far.
overlap_loop : Dict String → Dict String → Bool → Bool
unfolding lookup
overlap_loop alert [] matched = matched
overlap_loop alert ((k, v) ∷ rest) matched = elim (lookup k alert) [
  | none ↦ overlap_loop alert rest matched
  | some w ↦ let later = overlap_loop alert rest true in if str_eq w v then later else false
]

-- `matched` counts as a Boolean here: only `matched > 0` is read.
unfoldable pub labels_overlap : Dict String → Dict String → Bool
unfolding overlap_loop
labels_overlap alert target = overlap_loop alert target false

module _ {M : Type 0} (name_of : M → String) (matches : M → String → Bool) where
  matches_loop : Dict String → List M → Bool
  unfolding lookup
  matches_loop labels [] = true
  matches_loop labels (m ∷ rest) =
      let later = matches_loop labels rest in
      elim (lookup (name_of m) labels) [
        | none ↦ false
        | some v ↦ if matches m v then later else false
      ]

  unfoldable pub matches_resource : List M → Dict String → Bool
  unfolding matches_loop
  matches_resource [] labels = false
  matches_resource (m ∷ rest) labels = matches_loop labels (m ∷ rest)
