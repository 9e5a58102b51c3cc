-- ===== src/Config/Settings/Valid.antt =====
-- What the checks of a dependency and of the log level accept (internal/config/config.go).
use kubernaut_apifrontend.Common.{
  ℕ, ◌≤◌, ◌≡◌, refl, ap, ◌↔◌, ◌⊎◌, inl, inr, String, Bool, true, false, none, some, List, [], ◌∷◌,
  map, ◌&&◌, ◌||◌, not, ltb, ◌==◌, arith, Bool-cases, codes,
}
use kubernaut_apifrontend.Common.All.{All}
use kubernaut_apifrontend.Common.Int.{ℤ, pos, ◌≤ℤ◌, ltb_ℤ}
use kubernaut_apifrontend.Config.Types.{DependencyConfig}
use kubernaut_apifrontend.Config.Settings.{
  Check, fails_if, then_check, is_status, validate_statuses, validate_dependency_config, upper_rune,
  equal_runes, is_log_level, validate_logging,
}

-- Two equivalences make one of pairs.
pub both_iff :
    {A B : Type 0} (x y : Check)
    → (x ≡ none) ↔ A
    → (y ≡ none) ↔ B
    → (then_check x y ≡ none) ↔ (A × B)
unfolding then_check
both_iff none y a b = ((λ h. (a.0 refl, b.0 h)), (λ h. b.1 h.1))
both_iff (some x) y a b =
    ((λ h. absurd (let z : some x ≡ none = h in cc)), (λ h. absurd (let z = a.1 h.0 in cc)))

fails_if_iff : (bad : Bool) (field : String) → (fails_if bad field ≡ none) ↔ (bad ≡ false)
unfolding fails_if
fails_if_iff true field = ((λ h. cc), (λ h. cc))
fails_if_iff false field = ((λ h. refl), (λ h. refl))

pub iff_trans : {A B C : Type 0} → A ↔ B → B ↔ C → A ↔ C
iff_trans f g = ((λ a. g.0 (f.0 a)), (λ c. f.1 (g.1 c)))

-- `fails_if`, with what the test means.
pub checks :
    {A : Type 0} (bad : Bool) (field : String) → (bad ≡ false) ↔ A → (fails_if bad field ≡ none) ↔ A
checks bad field h = iff_trans (fails_if_iff bad field) h

abbrev pub IsStatus : ℕ → Type 0
IsStatus code = (400 ≤ code) × (code ≤ 599)

IsStatus-iff : (s : ℕ) → (not (is_status s) ≡ false) ↔ IsStatus s
unfolding is_status
IsStatus-iff s = ((λ h. (ground arith, ground arith)), (λ h. ground arith))

statuses_iff :
    (field : String) (codes : List ℕ) → (validate_statuses field codes ≡ none) ↔ All IsStatus codes
unfolding validate_statuses
statuses_iff field [] = ((λ h. tt), (λ h. refl))
statuses_iff field (s ∷ more) =
    both_iff (fails_if (not (is_status s)) field) (validate_statuses field more)
      (checks (not (is_status s)) field (IsStatus-iff s)) (statuses_iff field more)

-- The request timeout is not below the connect timeout, where both are set.
pub record IsDependency (d : DependencyConfig) : Type 0 where
  pub connect : pos 0 ≤ℤ d.connect_timeout
  pub request : pos 0 ≤ℤ d.request_timeout
  pub ordered :
      (d.connect_timeout ≤ℤ pos 0)
      ⊎ ((d.request_timeout ≤ℤ pos 0) ⊎ (d.connect_timeout ≤ℤ d.request_timeout))
  pub threshold : (1 ≤ d.cb_failure_threshold) × (d.cb_failure_threshold ≤ 100)
  pub retries : d.retry_max ≤ℤ pos 10
  pub statuses : All IsStatus d.retryable_statuses

ordered_iff :
    (c r : ℤ)
    → ((ltb_ℤ (pos 0) c && (ltb_ℤ (pos 0) r && ltb_ℤ r c)) ≡ false)
      ↔ ((c ≤ℤ pos 0) ⊎ ((r ≤ℤ pos 0) ⊎ (c ≤ℤ r)))
ordered_iff c r = ((λ h. go h), (λ h. ground arith))
  where
    go :
        (ltb_ℤ (pos 0) c && (ltb_ℤ (pos 0) r && ltb_ℤ r c)) ≡ false
        → (c ≤ℤ pos 0) ⊎ ((r ≤ℤ pos 0) ⊎ (c ≤ℤ r))
    go h = elim (Bool-cases (ltb_ℤ (pos 0) c)) [
      | inr a ↦ inl (ground arith)
      | inl a ↦ elim (Bool-cases (ltb_ℤ (pos 0) r)) [
        | inr b ↦ inr (inl (ground arith))
        | inl b ↦ inr (inr (ground (arith, a, b, h)))
      ]
    ]

pub not_below_iff : (a b : ℤ) → (ltb_ℤ a b ≡ false) ↔ (b ≤ℤ a)
not_below_iff a b = ((λ h. ground arith), (λ h. ground arith))

threshold_iff : (n : ℕ) → ((n == 0 || ltb 100 n) ≡ false) ↔ ((1 ≤ n) × (n ≤ 100))
threshold_iff n = ((λ h. (ground arith, ground arith)), (λ h. ground arith))

pub IsDependency-iff :
    (prefix : String) (d : DependencyConfig)
    → (validate_dependency_config prefix d ≡ none) ↔ IsDependency d
unfolding validate_dependency_config
IsDependency-iff prefix d =
    iff_trans
      (both_iff _ _ (checks _ _ (not_below_iff d.connect_timeout (pos 0))) (
        both_iff _ _ (checks _ _ (not_below_iff d.request_timeout (pos 0))) (
          both_iff _ _ (checks _ _ (ordered_iff d.connect_timeout d.request_timeout)) (
            both_iff _ _ (checks _ _ (threshold_iff d.cb_failure_threshold)) (
              both_iff _ _ (checks _ _ (not_below_iff (pos 10) d.retry_max))
                (statuses_iff _ d.retryable_statuses))))))
      (
        (λ h. (record {
          connect = h.0;
          request = h.1.0;
          ordered = h.1.1.0;
          threshold = h.1.1.1.0;
          retries = h.1.1.1.1.0;
          statuses = h.1.1.1.1.1;
        })),
        (λ k. (k.connect, (k.request, (k.ordered, (k.threshold, (k.retries, k.statuses)))))),
      )

-- A level that strings.ToUpper makes one of the four.
abbrev pub IsLevel : String → Type 0
IsLevel level =
    let up = map upper_rune (codes level) in
    (up ≡ codes "DEBUG") ⊎ ((up ≡ codes "INFO") ⊎ ((up ≡ codes "WARN") ⊎ (up ≡ codes "ERROR")))

equal_runes_iff : (xs ys : List ℕ) → (equal_runes xs ys ≡ true) ↔ (xs ≡ ys)
unfolding equal_runes
equal_runes_iff [] [] = ((λ h. refl), (λ h. refl))
equal_runes_iff [] (y ∷ ys) = ((λ h. cc), (λ h. cc))
equal_runes_iff (x ∷ xs) [] = ((λ h. cc), (λ h. cc))
equal_runes_iff (x ∷ xs) (y ∷ ys) =
    let ih = equal_runes_iff xs ys in
    (
      (λ h.
          (let p : x ≡ y = ground arith in
            let q : xs ≡ ys = ih.0 (ground arith) in rw p (ap (λ zs. y ∷ zs) q))),
      (λ h.
          (let p : x ≡ y = cc in
            let q : equal_runes xs ys ≡ true = ih.1 cc in ground (arith, p, q))),
    )

any_of_four :
    {A B C D : Type 0} (a b c d : Bool)
    → (a ≡ true) ↔ A
    → (b ≡ true) ↔ B
    → (c ≡ true) ↔ C
    → (d ≡ true) ↔ D
    → (not (a || (b || (c || d))) ≡ false) ↔ (A ⊎ (B ⊎ (C ⊎ D)))
any_of_four true b c d f g h k = ((λ _. inl (f.0 refl)), (λ _. refl))
any_of_four false true c d f g h k = ((λ _. inr (inl (g.0 refl))), (λ _. refl))
any_of_four false false true d f g h k = ((λ _. inr (inr (inl (h.0 refl)))), (λ _. refl))
any_of_four false false false true f g h k = ((λ _. inr (inr (inr (k.0 refl)))), (λ _. refl))
any_of_four false false false false f g h k = (
  (λ z. cc),
  (λ z. elim z [
    | inl a ↦ absurd (let y = f.1 a in cc)
    | inr (inl a) ↦ absurd (let y = g.1 a in cc)
    | inr (inr (inl a)) ↦ absurd (let y = h.1 a in cc)
    | inr (inr (inr a)) ↦ absurd (let y = k.1 a in cc)
  ]),
)

pub logging_iff : (level : String) → (validate_logging level ≡ none) ↔ IsLevel level
unfolding validate_logging is_log_level
logging_iff level =
    let up = map upper_rune (codes level) in
    checks _ _ (
      any_of_four _ _ _ _ (equal_runes_iff up (codes "DEBUG")) (equal_runes_iff up (codes "INFO"))
        (equal_runes_iff up (codes "WARN")) (equal_runes_iff up (codes "ERROR")))
