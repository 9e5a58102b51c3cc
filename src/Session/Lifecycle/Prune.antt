-- ===== src/Session/Lifecycle/Prune.antt =====
-- What Delete and PruneTerminalEntries (internal/session/service.go) leave in the session index.
use kubernaut_apifrontend.Common.{
  ℕ, suc, String, ◌≡◌, refl, Option, none, some, [], ◌∷◌, arith, if◌then◌else◌, eq_iff,
}
use kubernaut_apifrontend.Common.Dict.{Dict, lookup, lookup-delete}
use kubernaut_apifrontend.Common.Sweep.{HasUniqueKeys}
use kubernaut_apifrontend.Session.Crd.{Env}
use kubernaut_apifrontend.Session.Service.{CrdSessionService, forget}
use kubernaut_apifrontend.Session.Lifecycle.{is_stale, prune_loop, prune_terminal_entries}

module _ (e : Env) where
  open e use {World}

  -- What pruning leaves of an index entry `current`, by the entry of the snapshot.
  pub kept : World → Option String → Option String → Option String
  kept w none current = current
  kept w (some name) current = if is_stale e w name then none else current

  prune_loop-lookup :
      (w : World) (id : String) (snapshot : Dict String) (s : CrdSessionService) (n : ℕ)
      → HasUniqueKeys snapshot
      → lookup id (prune_loop e w snapshot s n).0.crd_index
        ≡ kept w (lookup id snapshot) (lookup id s.crd_index)
  unfolding prune_loop kept lookup
  prune_loop-lookup w id [] s n h = refl
  prune_loop-lookup w id ((k, name) ∷ rest) s n h =
      let gone = is_stale e w name in
      let s' = if gone then forget s k else s in
      ground (
        arith,
        eq_iff k id,
        lookup-delete k id s.crd_index,
        prune_loop-lookup w id rest s' (if gone then suc n else n) h.1,
      )

  -- After pruning, a session is in the index exactly with the CRD name it had, if that CRD can be
  -- read and is in no terminal phase, and not at all otherwise.
  pub prune_terminal_entries-lookup :
      (s : CrdSessionService) (w : World) (id : String)
      → HasUniqueKeys s.crd_index
      → lookup id (prune_terminal_entries e s w).0.crd_index
        ≡ kept w (lookup id s.crd_index) (lookup id s.crd_index)
  unfolding prune_terminal_entries
  prune_terminal_entries-lookup s w id h = prune_loop-lookup w id s.crd_index s 0 h
