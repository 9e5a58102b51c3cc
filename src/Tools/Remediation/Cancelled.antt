-- ===== src/Tools/Remediation/Cancelled.antt =====
-- What the tools that change a remediation write (internal/tools/crd_tools.go).
use kubernaut_apifrontend.Common.{
  ◌≡◌, refl, inl, inr, String, Bool, true, false, Option, none, some, Bool-cases, Option-cases,
}
use kubernaut_apifrontend.Tools.Errors.Cases.{Fetched-cases, Result-cases}
use kubernaut_apifrontend.Tools.Errors.{
  KubeError, ToolError, k8s_unavailable, already_terminal, Result, ok, err, got, refused,
  to_user_friendly_error, parse_rr_id, is_terminal_phase,
}
use kubernaut_apifrontend.Tools.Watch.Ends.{IsTerminal, is_terminal_phase-iff-IsTerminal}
use kubernaut_apifrontend.Tools.Remediation.{
  RemediationRequest, RrApi, RemediationArgs, cancel_patch, cancel_read, handle_cancel_remediation,
}

-- The answer to a patch.
abbrev pub Patched {ℓ} : {A : Type ℓ} → Option KubeError → A → Result A → Type ℓ
Patched none a r = r ≡ ok a
Patched (some x) a r = r ≡ err (to_user_friendly_error x)

module _ (api : RrApi) where
  open api use {World, now, get_rr, patch_rr_status}

  -- The patch after the read: to "Cancelled", at the time of the write.
  abbrev pub patch : World → String → String → World × Option KubeError
  patch w ns name =
      let w' = (get_rr w ns name).0 in
      patch_rr_status w' ns name
        (record { overall_phase = "Cancelled"; completed_at = now w'; last_modified_at = now w' })

  -- How a cancellation ends, in terms of what was read.
  pub data Cancels (available : Bool) (w : World) (args : RemediationArgs)
      (r : World × Result String) : Type 0 where
    no_cluster : available ≡ false → r ≡ (w, err k8s_unavailable) → Cancels available w args r
    malformed :
        (x : ToolError)
        → available ≡ true
        → parse_rr_id args.rr_id args.namespace args.name ≡ err x
        → r ≡ (w, err x)
        → Cancels available w args r
    read_failed :
        (ns name : String) (x : KubeError)
        → available ≡ true
        → parse_rr_id args.rr_id args.namespace args.name ≡ ok (ns, name)
        → (get_rr w ns name).1 ≡ refused x
        → r ≡ ((get_rr w ns name).0, err (to_user_friendly_error x))
        → Cancels available w args r
    over :
        (ns name : String) (obj : RemediationRequest)
        → available ≡ true
        → parse_rr_id args.rr_id args.namespace args.name ≡ ok (ns, name)
        → (get_rr w ns name).1 ≡ got obj
        → IsTerminal obj.overall_phase
        → r ≡ ((get_rr w ns name).0, err already_terminal)
        → Cancels available w args r
    patched :
        (ns name : String) (obj : RemediationRequest)
        → available ≡ true
        → parse_rr_id args.rr_id args.namespace args.name ≡ ok (ns, name)
        → (get_rr w ns name).1 ≡ got obj
        → (IsTerminal obj.overall_phase → ⊥)
        → r.0 ≡ (patch w ns name).0
        → Patched (patch w ns name).1 "Cancelled" r.1
        → Cancels available w args r

  read-Cancels :
      (w : World) (args : RemediationArgs) (ns name : String) (obj : RemediationRequest)
      → parse_rr_id args.rr_id args.namespace args.name ≡ ok (ns, name)
      → (get_rr w ns name).1 ≡ got obj
      → Cancels true w args (cancel_read api (get_rr w ns name).0 ns name obj)
  unfolding cancel_read cancel_patch
  read-Cancels w args ns name obj p q = elim (Bool-cases (is_terminal_phase obj.overall_phase)) [
    | inl t ↦
        rw (t, cancel_read)
          (over ns name obj refl p q ((is_terminal_phase-iff-IsTerminal obj.overall_phase).0 t)
            refl)
    | inr t ↦
        let live : IsTerminal obj.overall_phase → ⊥ =
          λ k. absurd (let z = (is_terminal_phase-iff-IsTerminal obj.overall_phase).1 k in cc) in
        elim (Option-cases (patch w ns name).1) [
          | inl z ↦
              rw (t, cancel_read)
                (rw (z, cancel_read) (patched ns name obj refl p q live refl (rw z refl)))
          | inr (x, z) ↦
              rw (t, cancel_read)
                (rw (z, cancel_read) (patched ns name obj refl p q live refl (rw z refl)))
        ]
  ]

  -- A remediation is patched only if the phase that was just read is not terminal, and then once,
  -- to "Cancelled"; the call succeeds exactly if the patch does. In a terminal phase the call fails
  -- with ErrAlreadyTerminal. Then, and where the arguments are malformed or the read fails, nothing
  -- is written.
  pub handle_cancel_remediation-Cancels :
      (available : Bool) (w : World) (args : RemediationArgs)
      → Cancels available w args (handle_cancel_remediation api available w args)
  unfolding handle_cancel_remediation
  handle_cancel_remediation-Cancels false w args = no_cluster refl refl
  handle_cancel_remediation-Cancels true w args =
      elim (Result-cases (parse_rr_id args.rr_id args.namespace args.name)) [
        | inr (x, p) ↦ rw (p, handle_cancel_remediation) (malformed x refl p refl)
        | inl ((ns, name), p) ↦ elim (Fetched-cases (get_rr w ns name).1) [
          | inr (x, q) ↦
              rw (p, handle_cancel_remediation)
                (rw (q, handle_cancel_remediation) (read_failed ns name x refl p q refl))
          | inl (obj, q) ↦
              rw (p, handle_cancel_remediation)
                (rw (q, handle_cancel_remediation) (read-Cancels w args ns name obj p q))
        ]
      ]
