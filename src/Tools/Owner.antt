-- ===== src/Tools/Owner.antt =====
-- HandleResolveOwner of internal/tools/af_resolve_owner.go. The Kubernetes client is outside: a
-- lookup is a parameter over the world.
pub mod Walk
use kubernaut_apifrontend.Common.{
  ℕ, zero, suc, String, Bool, true, false, Option, none, some, List, [], ◌∷◌, ◌++◌, if◌then◌else◌,
  str_eq, ◌||◌, not,
}
use Prim.Native.String
use kubernaut_apifrontend.Validate.{NameRules, valid_namespace, valid_resource_name, is_blank}
use kubernaut_apifrontend.Tools.Errors.{
  KubeError, ToolError, k8s_unavailable, invalid_input, Result, ok, err, Fetched, got, refused,
  to_user_friendly_error,
}

abbrev pub max_owner_depth : ℕ
max_owner_depth = 10

pub record OwnerChainEntry : Type 0 where
  pub kind : String
  pub name : String
  pub api_version : String

-- schema.GroupVersionResource; the version is "v1" for all of them.
pub record GroupVersionResource : Type 0 where
  pub group : String
  pub resource : String

-- An entry of ownerReferences. `controller` is set if the field is there and true; a string that
-- is not there is empty.
pub data RawRef : Type 0 where
  not_a_map : RawRef
  ref : (controller : Bool) (kind name : String) → RawRef

pub record Owned : Type 0 where
  pub entry : OwnerChainEntry
  pub owner_references : List RawRef

unfoldable pub kind_to_gvr : String → Option GroupVersionResource
kind_to_gvr kind =
    if str_eq kind "Pod"
    then some (record { group = ""; resource = "pods" })
    else if str_eq kind "ReplicationController"
    then some (record { group = ""; resource = "replicationcontrollers" })
    else if str_eq kind "ReplicaSet"
    then some (record { group = "apps"; resource = "replicasets" })
    else if str_eq kind "Deployment"
    then some (record { group = "apps"; resource = "deployments" })
    else if str_eq kind "StatefulSet"
    then some (record { group = "apps"; resource = "statefulsets" })
    else if str_eq kind "DaemonSet"
    then some (record { group = "apps"; resource = "daemonsets" })
    else if str_eq kind "Job"
    then some (record { group = "batch"; resource = "jobs" })
    else if str_eq kind "CronJob"
    then some (record { group = "batch"; resource = "cronjobs" })
    else none

-- `chosen`, or else `first`, after the loop over the references.
unfoldable pub scan_refs : Option (String × String) → List RawRef → Option (String × String)
scan_refs first [] = first
scan_refs first (not_a_map ∷ more) = scan_refs first more
scan_refs first (ref controller kind name ∷ more) =
    let kept : Option (String × String) = elim first [
      | none ↦ some (kind, name)
      | some x ↦ some x
    ] in
    let rest = scan_refs kept more in if controller then some (kind, name) else rest

unfoldable pub pick_owner_ref : List RawRef → Option (String × String)
unfolding scan_refs
pick_owner_ref refs = elim (scan_refs none refs) [
  | none ↦ none
  | some (kind, name) ↦ if str_eq kind "" || str_eq name "" then none else some (kind, name)
]

-- The key of a visited resource.
unfoldable pub owner_key : String → String → String
owner_key kind name = String.◌++◌ kind (String.◌++◌ "/" name)

unfoldable pub is_visited : String → List String → Bool
is_visited key [] = false
is_visited key (k ∷ more) = str_eq k key || is_visited key more

unfoldable pub is_empty {ℓ} : {A : Type ℓ} → List A → Bool
is_empty [] = true
is_empty (x ∷ xs) = false

pub record OwnerApi : Type 1 where
  pub World : Type 0
  pub get_object : World → GroupVersionResource → String → String → World × Fetched Owned
  pub rules : NameRules

pub record ResolveOwnerArgs : Type 0 where
  pub namespace : String
  pub kind : String
  pub name : String

pub record ResolveOwnerResult : Type 0 where
  pub chain : List OwnerChainEntry
  pub root_kind : String
  pub root_name : String

-- What the loop leaves: the visited keys, the newest first, and the chain.
pub record Visit : Type 0 where
  pub visited : List String
  pub chain : List OwnerChainEntry

unfoldable pub root_of : OwnerChainEntry → List OwnerChainEntry → OwnerChainEntry
root_of x [] = x
root_of x (y ∷ more) = root_of y more

unfoldable pub resolved : List OwnerChainEntry → ResolveOwnerResult
unfolding root_of
resolved [] = record { chain = []; root_kind = ""; root_name = "" }
resolved (x ∷ more) =
    let root = root_of x more in
    record { chain = x ∷ more; root_kind = root.kind; root_name = root.name }

module _ (api : OwnerApi) where
  open api use {World, get_object, rules}

  -- The loop runs while the chain is shorter than the maximum; each round that goes on adds an entry.
  unfoldable pub resolve_loop :
      ℕ → World → String → String → String → Visit → World × Visit × Option ToolError
  unfolding is_empty is_visited owner_key
  resolve_loop zero w ns kind name v = (w, v, none)
  resolve_loop (suc rounds) w ns kind name v = elim (is_visited (owner_key kind name) v.visited) [
    | true ↦ (w, v, none)
    | false ↦ elim (kind_to_gvr kind) [
      | none ↦ (w, v, if is_empty v.chain then some invalid_input else none)
      | some gvr ↦
          let (w', r) = get_object w gvr ns name in
          let visited = owner_key kind name ∷ v.visited in
          elim r [
            | refused x ↦ (
              w',
              record v { visited = visited },
              if is_empty v.chain then some (to_user_friendly_error x) else none,
            )
            | got obj ↦
                let v' : Visit = record { visited = visited; chain = v.chain ++ obj.entry ∷ [] } in
                elim (pick_owner_ref obj.owner_references) [
                  | none ↦ (w', v', none)
                  | some (kind', name') ↦ resolve_loop rounds w' ns kind' name' v'
                ]
          ]
    ]
  ]

  -- `available` is false for a nil client.
  unfoldable pub handle_resolve_owner :
      Bool → World → ResolveOwnerArgs → World × Result ResolveOwnerResult
  unfolding resolve_loop resolved valid_namespace valid_resource_name is_blank
  handle_resolve_owner available w args =
      if not available
      then (w, err k8s_unavailable)
      else if not (valid_namespace rules args.namespace)
      then (w, err invalid_input)
      else if not (valid_resource_name rules args.name)
      then (w, err invalid_input)
      else if is_blank args.kind
      then (w, err invalid_input)
      else let (w', v, x) =
          resolve_loop max_owner_depth w args.namespace args.kind args.name
            (record { visited = []; chain = [] }) in
        (w', elim x [ some y ↦ err y | none ↦ ok (resolved v.chain) ])
