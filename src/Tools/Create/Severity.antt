-- ===== src/Tools/Create/Severity.antt =====
-- Where the severity of a new remediation request comes from (internal/tools/af_create_rr.go).
use kubernaut_apifrontend.Common.{
  ◌≡◌, ◌≢◌, refl, inl, inr, String, true, false, Option, none, some, ◌&&◌, not, arith, Bool-cases,
  eq_iff,
}
use kubernaut_apifrontend.Validate.{is_blank}
use kubernaut_apifrontend.Tools.Create.{TriageResult, severity_of, is_valid_severity}

blank : (s : String) → is_blank s ≡ true → s ≡ ""
unfolding is_blank
blank s h = (eq_iff s "").0 h

not_blank : (s : String) → is_blank s ≡ false → s ≢ ""
unfolding is_blank
not_blank s h e = ground (arith, eq_iff s "")

-- Where the severity of a request comes from: the user, the triage, or the default.
pub data SeverityFrom (given : String) : String → Option TriageResult → Type 0 where
  user : (s : String) → s ≡ given → is_valid_severity s ≡ true → SeverityFrom given s none
  triager :
      (t : TriageResult) → given ≡ "" → t.severity ≢ "" → SeverityFrom given t.severity (some t)
  default : given ≡ "" → SeverityFrom given "medium" none

pub severity_of-SeverityFrom :
    (given : String) (t : TriageResult)
    → is_blank given ≡ true
    → SeverityFrom given (severity_of given (some t)).0 (severity_of given (some t)).1
unfolding severity_of
severity_of-SeverityFrom given t b = elim (Bool-cases (is_blank t.severity)) [
  | inl e ↦ rw (e, severity_of) (rw (b, severity_of) (default (blank given b)))
  | inr e ↦ rw (e, severity_of) (triager t (blank given b) (not_blank t.severity e))
]

pub from_user :
    (given : String)
    → (not (is_blank given) && not (is_valid_severity given)) ≡ false
    → SeverityFrom given (severity_of given none).0 none
unfolding severity_of
from_user given good = elim (Bool-cases (is_blank given)) [
  | inl b ↦ rw (b, severity_of) (default (blank given b))
  | inr b ↦ rw (b, severity_of) (user given refl (ground arith))
]
