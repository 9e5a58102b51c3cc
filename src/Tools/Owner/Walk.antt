-- ===== src/Tools/Owner/Walk.antt =====
-- The walk of HandleResolveOwner (internal/tools/af_resolve_owner.go) ends, cycles included.
use kubernaut_apifrontend.Common.{
  ℕ, zero, suc, ◌≤◌, ◌≡◌, ◌≢◌, refl, ap, sym, subst, ◌∙◌, inl, inr, String, false, Option, none,
  some, List, [], ◌∷◌, ◌++◌, arith, Bool-cases, Option-cases, length, eq_iff, if◌then◌else◌,
}
use kubernaut_apifrontend.Common.All.{All, All-change}
use kubernaut_apifrontend.Tools.Errors.Cases.{Fetched-cases}
use kubernaut_apifrontend.Tools.Errors.{KubeError, ToolError, refused, got}
use kubernaut_apifrontend.Tools.Owner.{
  OwnerApi, Owned, OwnerChainEntry, Visit, GroupVersionResource, kind_to_gvr, pick_owner_ref,
  owner_key, is_visited, is_empty, resolve_loop, max_owner_depth,
}
use mathlib.Core.List.{append-nil, append_assoc}

-- A kind and a name.
abbrev pub Key : Type 0
Key = String × String

-- Nothing stands twice.
abbrev pub Distinct : List Key → Type 0
Distinct [] = Unit
Distinct (k ∷ more) = All (λ j. j ≢ k) more × Distinct more

abbrev Unseen : List String → Key → Type 0
Unseen visited k = is_visited (owner_key k.0 k.1) visited ≡ false

Unseen-tail :
    (key : String) (visited : List String) (k : Key) → Unseen (key ∷ visited) k → Unseen visited k
unfolding is_visited
Unseen-tail key visited k h = ground arith

Unseen-ne :
    (kind name : String) (visited : List String) (k : Key)
    → Unseen (owner_key kind name ∷ visited) k
    → k ≢ (kind, name)
unfolding is_visited
Unseen-ne kind name visited k h same = absurd (
    let z : owner_key kind name ≡ owner_key k.0 k.1 = ap (λ q. owner_key q.0 q.1) (sym same) in
    let y = (eq_iff (owner_key kind name) (owner_key k.0 k.1)).1 z in ground (arith, y, h))

only_empty :
    (chain : List OwnerChainEntry) (x y : ToolError)
    → (if is_empty chain then some x else none) ≡ some y
    → chain ≡ []
unfolding is_empty
only_empty [] x y h = refl
only_empty (e ∷ more) x y h = cc

empty_fails :
    (chain : List OwnerChainEntry) (x : ToolError)
    → chain ≡ []
    → (if is_empty chain then some x else none) ≢ none
unfolding is_empty
empty_fails [] x e h = cc
empty_fails (y ∷ more) x e h = cc

append-ne-nil : (chain : List OwnerChainEntry) (x : OwnerChainEntry) → chain ++ x ∷ [] ≢ []
append-ne-nil [] x h = cc
append-ne-nil (y ∷ more) x h = cc

module _ (api : OwnerApi) (ns : String) where
  open api use {World, get_object}

  -- The lookups from a kind and a name on, the entries that they give, and the world that they leave:
  -- each entry is the resource that was got, and the next lookup is of the owner that it names.
  pub data Lookups
      : World → String → String → List Key → List OwnerChainEntry → World → Type 0 where
    stop : (w : World) (kind name : String) → Lookups w kind name [] [] w
    lost :
        (w : World) (kind name : String) (gvr : GroupVersionResource) (x : KubeError)
        → kind_to_gvr kind ≡ some gvr
        → (get_object w gvr ns name).1 ≡ refused x
        → Lookups w kind name ((kind, name) ∷ []) [] (get_object w gvr ns name).0
    root :
        (w : World) (kind name : String) (gvr : GroupVersionResource) (obj : Owned)
        → kind_to_gvr kind ≡ some gvr
        → (get_object w gvr ns name).1 ≡ got obj
        → Lookups w kind name ((kind, name) ∷ []) (obj.entry ∷ []) (get_object w gvr ns name).0
    owned :
        (w w' : World) (kind name : String) (gvr : GroupVersionResource) (obj : Owned)
        (kind' name' : String) (keys : List Key) (more : List OwnerChainEntry)
        → kind_to_gvr kind ≡ some gvr
        → (get_object w gvr ns name).1 ≡ got obj
        → pick_owner_ref obj.owner_references ≡ some (kind', name')
        → Lookups (get_object w gvr ns name).0 kind' name' keys more w'
        → Lookups w kind name ((kind, name) ∷ keys) (obj.entry ∷ more) w'

  abbrev Loop : Type 0
  Loop = World × Visit × Option ToolError

  -- The loop, from any state on.
  record Walked (w : World) (kind name : String) (n : ℕ) (v : Visit) (r : Loop) : Type 0 where
    new : List OwnerChainEntry
    extends : r.1.chain ≡ v.chain ++ new
    keys : List Key
    follows : Lookups w kind name keys new r.0
    distinct : Distinct keys
    unseen : All (Unseen v.visited) keys
    looked_up : length keys ≤ n
    short : length new ≤ n
    fails : (x : ToolError) → r.2 ≡ some x → (v.chain ≡ []) × (new ≡ [])
    moves :
        1 ≤ n
        → is_visited (owner_key kind name) v.visited ≡ false
        → v.chain ≡ []
        → r.2 ≡ none
        → 1 ≤ length new

  -- A round that adds no entry.
  stays :
      (w : World) (kind name : String) (n : ℕ) (v : Visit) (r : Loop) (keys : List Key)
      → r.1.chain ≡ v.chain
      → Lookups w kind name keys [] r.0
      → Distinct keys
      → All (Unseen v.visited) keys
      → length keys ≤ n
      → ((x : ToolError) → r.2 ≡ some x → v.chain ≡ [])
      → (1 ≤ n → is_visited (owner_key kind name) v.visited ≡ false → v.chain ≡ [] → r.2 ≢ none)
      → Walked w kind name n v r
  stays w kind name n v r keys same follows d u le e m = record {
    new = [];
    extends = same ∙ sym (append-nil v.chain);
    keys = keys;
    follows = follows;
    distinct = d;
    unseen = u;
    looked_up = le;
    short = omega arith;
    fails = λ x h. (e x h, refl);
    moves = λ h f c q. absurd (m h f c q);
  }

  loop-Walked :
      (n : ℕ) (w : World) (kind name : String) (v : Visit)
      → Walked w kind name n v (resolve_loop api n w ns kind name v)
  unfolding resolve_loop
  loop-Walked zero w kind name v =
      stays w kind name 0 v _ [] refl (stop w kind name) tt tt (omega arith) (λ x h. cc)
        (λ h. absurd (omega arith))
  loop-Walked (suc n) w kind name v =
      elim (Bool-cases (is_visited (owner_key kind name) v.visited)) [
        | inl seen ↦
            rw (seen, resolve_loop)
              (stays w kind name (suc n) v _ [] refl (stop w kind name) tt tt (omega arith)
                (λ x h. cc) (λ h f. cc))
        | inr fresh ↦ elim (Option-cases (kind_to_gvr kind)) [
          | inl unknown ↦
              rw (fresh, resolve_loop)
                (rw (unknown, resolve_loop)
                  (stays w kind name (suc n) v _ [] refl (stop w kind name) tt tt (omega arith)
                    (only_empty v.chain _) (λ h f. empty_fails v.chain _)))
          | inr (gvr, known) ↦ elim (Fetched-cases (get_object w gvr ns name).1) [
            | inr (x, e) ↦
                rw (fresh, resolve_loop)
                  (rw (known, resolve_loop)
                    (rw (e, resolve_loop)
                      (stays w kind name (suc n) v _ ((kind, name) ∷ []) refl
                        (lost w kind name gvr x known e) (tt, tt) (fresh, tt) (omega arith)
                        (only_empty v.chain _) (λ h f. empty_fails v.chain _))))
            | inl (obj, e) ↦ elim (Option-cases (pick_owner_ref obj.owner_references)) [
              | inl top ↦
                  rw (fresh, resolve_loop)
                    (rw (known, resolve_loop)
                      (rw (e, resolve_loop)
                        (rw (top, resolve_loop)
                          (record {
                            new = obj.entry ∷ [];
                            extends = refl;
                            keys = (kind, name) ∷ [];
                            follows = root w kind name gvr obj known e;
                            distinct = (tt, tt);
                            unseen = (fresh, tt);
                            looked_up = omega arith;
                            short = omega arith;
                            fails = λ x h. cc;
                            moves = λ h f c q. omega arith;
                          }))))
              | inr ((kind', name'), next) ↦
                  let v' : Visit = record {
                    visited = owner_key kind name ∷ v.visited;
                    chain = v.chain ++ obj.entry ∷ [];
                  } in
                  let ih = loop-Walked n (get_object w gvr ns name).0 kind' name' v' in
                  rw (fresh, resolve_loop)
                    (rw (known, resolve_loop)
                      (rw (e, resolve_loop)
                        (rw (next, resolve_loop)
                          (record {
                            new = obj.entry ∷ ih.new;
                            extends = ih.extends ∙ append_assoc v.chain (obj.entry ∷ []) ih.new;
                            keys = (kind, name) ∷ ih.keys;
                            follows =
                                owned w _ kind name gvr obj kind' name' ih.keys ih.new known e next
                                  ih.follows;
                            distinct = (
                              All-change (Unseen-ne kind name v.visited) ih.keys ih.unseen,
                              ih.distinct,
                            );
                            unseen = (
                              fresh,
                              All-change (Unseen-tail (owner_key kind name) v.visited) ih.keys
                                  ih.unseen,
                            );
                            looked_up = omega (arith, ih.looked_up);
                            short = omega (arith, ih.short);
                            fails =
                                λ x h. absurd (append-ne-nil v.chain obj.entry (ih.fails x h).0);
                            moves = λ h f c q. omega arith;
                          }))))
            ]
          ]
        ]
      ]

-- A loop from the start.
abbrev pub walk :
    (api : OwnerApi) → api.World → String → String → String → api.World × Visit × Option ToolError
walk api w ns kind name =
    resolve_loop api max_owner_depth w ns kind name (record { visited = []; chain = [] })

-- A loop fails with no entry, or it has one.
abbrev pub Settled : List OwnerChainEntry → Option ToolError → Type 0
Settled chain none = 1 ≤ length chain
Settled chain (some x) = chain ≡ []

-- How a walk ends.
pub record WalkEnds (api : OwnerApi) (w : api.World) (ns kind name : String)
    (r : api.World × Visit × Option ToolError) : Type 0 where
  pub keys : List Key
  pub follows : Lookups api ns w kind name keys r.1.chain r.0
  pub distinct : Distinct keys
  pub looked_up : length keys ≤ 10
  pub short : length r.1.chain ≤ 10
  pub settled : Settled r.1.chain r.2

-- Whatever the owner references are, cycles included: the calls of the API server that the loop makes
-- are at most ten lookups, and no two of them are of the same kind and name. They follow the
-- references from the named resource on, each one of the owner that the entry before it names. The
-- chain is what they got, at most ten entries; it is empty if the loop fails, and has an entry
-- otherwise.
pub resolve_loop_ends :
    (api : OwnerApi) (w : api.World) (ns kind name : String)
    → WalkEnds api w ns kind name (walk api w ns kind name)
unfolding is_visited
resolve_loop_ends api w ns kind name =
    let r = walk api w ns kind name in
    let h = loop-Walked api ns max_owner_depth w kind name (record { visited = []; chain = [] }) in
    let e : r.1.chain ≡ h.new = h.extends in
    record {
      keys = h.keys;
      follows = subst (λ c. Lookups api ns w kind name h.keys c r.0) (sym e) h.follows;
      distinct = h.distinct;
      looked_up = h.looked_up;
      short = omega (arith, h.short, ap length e);
      settled = elim (Option-cases r.2) [
        | inl q ↦ rw q (omega (arith, ap length e, h.moves (omega arith) refl refl q))
        | inr (x, q) ↦ rw q (e ∙ (h.fails x q).1)
      ];
    }
