-- ===== src/Controller/Tests.antt =====
-- Runs of internal/controller on an API server in memory, and the theorems about it applied to them.
use kubernaut_apifrontend.Common.{◌⊎◌, codes, ℕ, arith, refl, true, false, none, some, [], ◌∷◌}
use kubernaut_apifrontend.Common.Int.{pos, ◌<ℤ◌, ◌≤ℤ◌, ◌+ℤ◌}
use kubernaut_apifrontend.Session.Phase.{disconnected, cancelled, completed}
use kubernaut_apifrontend.Session.Crd.{InvestigationSession}
use kubernaut_apifrontend.Session.Service.{CrdSessionService, label_phase, crd_name_of}
use kubernaut_apifrontend.Session.Service.Writes.{PhaseWrites}
use kubernaut_apifrontend.Session.Lifecycle.{started_status, no_spec}
use kubernaut_apifrontend.Common.Dict.{lookup}
use kubernaut_apifrontend.Session.Memory.{MemoryWorld, memory, memory-RetryLaw, memory-StatusLaw}
use kubernaut_apifrontend.Controller.{
  SessionCleanupReconciler, handle_disconnected, cancel_directly, cancelled_in_memory, reconcile,
  min_retention_ttl,
}
use kubernaut_apifrontend.Controller.Expiry.{reconcile-PhaseWrites}
use kubernaut_apifrontend.Controller.Wait.{Waits, Cancels, handle_disconnected_wait}
use kubernaut_apifrontend.Controller.Direct.{Sent, cancel_directly_labels}

abbrev svc : CrdSessionService
svc = record {
  namespace = "ns";
  has_api_reader = true;
  auditor = none;
  sessions_active = none;
  crd_index = [];
}

abbrev live_crd : InvestigationSession
live_crd = record {
  name = "isess-1";
  namespace = "ns";
  labels = some [];
  owner_references = [];
  resource_version = 1;
  spec = no_spec;
  status = started_status 5;
}

abbrev left_crd : InvestigationSession
left_crd = record live_crd {
  status = record live_crd.status { phase = disconnected; disconnected_at = some 7 };
}

abbrev ended_crd : InvestigationSession
ended_crd = record live_crd {
  status = record live_crd.status { phase = completed; completed_at = some 7 };
}

abbrev world_of : ℕ → InvestigationSession → MemoryWorld
world_of now crd = record { clock = now; objects = ("isess-1", crd) ∷ []; interfere = false }

abbrev cleaner : SessionCleanupReconciler
cleaner = record {
  disconnect_ttl = pos 10;
  retention_ttl = pos min_retention_ttl;
  auditor = some [];
  ttl_actions = some (0, 0);
  session_service = some svc;
}

reconcile-PhaseWrites_example :
    PhaseWrites memory svc
      (crd_name_of svc "isess-1")
      cancelled
      (world_of 30 left_crd)
      (reconcile memory cleaner (world_of 30 left_crd) "isess-1").0
unfolding lookup
reconcile-PhaseWrites_example =
    reconcile-PhaseWrites memory memory-RetryLaw cleaner (world_of 30 left_crd) "isess-1" left_crd
      svc refl refl refl

abbrev labelled_crd : InvestigationSession
labelled_crd = record left_crd { labels = some ((label_phase, codes "Disconnected") ∷ []) }

abbrev cancelled_crd : InvestigationSession
unfolding cancelled_in_memory
cancelled_crd = record labelled_crd {
  resource_version = 2;
  status = (cancelled_in_memory 30 labelled_crd).status;
}

cancel_directly_labels_example :
    Sent memory
      (world_of 30 labelled_crd)
      labelled_crd
      labelled_crd
      (cancel_directly memory (world_of 30 labelled_crd) labelled_crd).0
unfolding lookup cancelled_in_memory cancelled_crd
cancel_directly_labels_example =
    cancel_directly_labels memory memory-StatusLaw (world_of 30 labelled_crd) labelled_crd
      labelled_crd cancelled_crd refl refl

handle_disconnected_wait_example :
    (first : Waits memory
      (pos 7 +ℤ pos 10)
      (world_of 10 left_crd)
      cleaner
      (handle_disconnected memory cleaner (world_of 10 left_crd) left_crd))
    × (((pos 20 <ℤ pos 10 +ℤ first.wait)
          × Waits memory
              (pos 7 +ℤ pos 10)
              (world_of 20 left_crd)
              cleaner
              (handle_disconnected memory cleaner (world_of 20 left_crd) left_crd))
        ⊎ ((pos 10 +ℤ first.wait ≤ℤ pos 20)
            × Cancels memory 7 svc
                (world_of 20 left_crd)
                left_crd
                cleaner
                (handle_disconnected memory cleaner (world_of 20 left_crd) left_crd)))
unfolding ◌+ℤ◌
handle_disconnected_wait_example =
    handle_disconnected_wait memory cleaner (world_of 10 left_crd) (world_of 20 left_crd) left_crd 7
      svc refl refl refl (omega arith)
