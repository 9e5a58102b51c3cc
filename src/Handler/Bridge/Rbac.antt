-- ===== src/Handler/Bridge/Rbac.antt =====
-- Who may call a tool: checkRBAC of internal/handler/mcp_bridge.go.
use kubernaut_apifrontend.Common.{
  ◌≡◌, ◌↔◌, ◌⊎◌, inl, inr, String, true, Option, none, some, List, [], ◌∷◌, arith, Bool-cases,
  Option-cases, str_eq, eq_iff,
}
use kubernaut_apifrontend.Common.All.{Any}
use kubernaut_apifrontend.Common.Dict.{Dict, lookup}
use kubernaut_apifrontend.Handler.Bridge.{Caller, lists_tool, role_allows, groups_allow, check_rbac}

-- A role that is configured with the tool, or with all of them.
abbrev pub Grants : Dict (List String) → String → String → Type 0
Grants roles tool role =
    (tools : List String) × (lookup role roles ≡ some tools)
    × Any (λ t. (t ≡ tool) ⊎ (t ≡ "*")) tools

-- The role "*" grants the tool, or one of the user's groups does.
abbrev pub IsAllowed : Dict (List String) → Option Caller → String → Type 0
IsAllowed roles user tool =
    Grants roles tool "*" ⊎ ((u : Caller) × (user ≡ some u) × Any (Grants roles tool) u.groups)

lists-Any :
    (tool : String) (tools : List String)
    → lists_tool tool tools ≡ true
    → Any (λ t. (t ≡ tool) ⊎ (t ≡ "*")) tools
unfolding lists_tool
lists-Any tool [] h = cc
lists-Any tool (t ∷ more) h = elim (Bool-cases (str_eq t tool)) [
  | inl same ↦ inl (inl ((eq_iff t tool).0 same))
  | inr other ↦ elim (Bool-cases (str_eq t "*")) [
    | inl star ↦ inl (inr ((eq_iff t "*").0 star))
    | inr not_star ↦ inr (lists-Any tool more (ground (arith, other, not_star, h)))
  ]
]

Any-lists :
    (tool : String) (tools : List String)
    → Any (λ t. (t ≡ tool) ⊎ (t ≡ "*")) tools
    → lists_tool tool tools ≡ true
unfolding lists_tool
Any-lists tool [] h = absurd h
Any-lists tool (t ∷ more) (inl (inl e)) = ground (arith, e, eq_iff t tool)
Any-lists tool (t ∷ more) (inl (inr e)) = ground (arith, e, eq_iff t "*")
Any-lists tool (t ∷ more) (inr h) = ground (arith, Any-lists tool more h)

module _ (roles : Dict (List String)) (tool : String) where
  role-Grants : (role : String) → role_allows roles tool role ≡ true → Grants roles tool role
  unfolding role_allows
  role-Grants role h = elim (Option-cases (lookup role roles)) [
    | inl gone ↦ absurd (ground (arith, gone, h))
    | inr (tools, e) ↦ (tools, e, lists-Any tool tools (ground (arith, e, h)))
  ]

  Grants-role : (role : String) → Grants roles tool role → role_allows roles tool role ≡ true
  unfolding role_allows
  Grants-role role (tools, e, h) = rw (e, role_allows) (Any-lists tool tools h)

  groups-Any :
      (groups : List String)
      → groups_allow roles tool groups ≡ true
      → Any (Grants roles tool) groups
  unfolding groups_allow
  groups-Any [] h = cc
  groups-Any (g ∷ more) h = elim (Bool-cases (role_allows roles tool g)) [
    | inl first ↦ inl (role-Grants g first)
    | inr other ↦ inr (groups-Any more (ground (arith, other, h)))
  ]

  Any-groups :
      (groups : List String)
      → Any (Grants roles tool) groups
      → groups_allow roles tool groups ≡ true
  unfolding groups_allow
  Any-groups [] h = absurd h
  Any-groups (g ∷ more) (inl h) = ground (arith, Grants-role g h)
  Any-groups (g ∷ more) (inr h) = ground (arith, Any-groups more h)

  -- A call of a tool is permitted exactly if the role "*" is configured with the tool or with "*", which
  -- permits it to everyone, a caller without an identity included, or if the caller has an identity
  -- with a group that is.
  pub check_rbac-iff-IsAllowed :
      (user : Option Caller) → (check_rbac roles user tool ≡ none) ↔ IsAllowed roles user tool
  unfolding check_rbac
  check_rbac-iff-IsAllowed user = (permitted user, permits user)
    where
      permitted : (u : Option Caller) → check_rbac roles u tool ≡ none → IsAllowed roles u tool
      permitted u h = elim (Bool-cases (role_allows roles tool "*")) [
        | inl star ↦ inl (role-Grants "*" star)
        | inr closed ↦ elim (Option-cases u) [
          | inl nobody ↦ absurd (ground (arith, closed, nobody, h))
          | inr (c, e) ↦ inr (c, e, groups-Any c.groups (ground (arith, closed, e, h)))
        ]
      ]

      permits : (u : Option Caller) → IsAllowed roles u tool → check_rbac roles u tool ≡ none
      permits u (inl h) = ground (arith, Grants-role "*" h)
      permits u (inr (c, e, h)) = ground (arith, e, Any-groups c.groups h)
