-- ===== src/Session/Memory.antt =====
-- An API server in memory, with optimistic locking and a status subresource, on which the theorems
-- about internal/session and internal/controller are applied.
use kubernaut_apifrontend.Common.{
  ℕ, ◌+◌, ◌*◌, zero, suc, String, ◌≡◌, refl, Bool, false, Option, none, some, List, ◌==◌,
  if◌then◌else◌, Bool-cases, inl, inr, arith, Option-cases, ltb, length, ◌^◌, ◌<◌, ◌≤◌,
}
use kubernaut_apifrontend.Common.Dict.{Dict, lookup, insert, delete, lookup-delete_self}
use kubernaut_apifrontend.Session.Phase.{other}
use kubernaut_apifrontend.Session.Trimming.{Response, value, truncated}
use kubernaut_apifrontend.Session.Trimming.Size.{MarshalLaw}
use kubernaut_apifrontend.Session.Crd.{
  InvestigationSession, InvestigationSessionStatus, Env, ApiError, not_found, conflict,
  already_exists, ApiResult, ok, err, Err, is_conflict, Iterates, stop, again, RetryLaw, unset,
}
use kubernaut_apifrontend.Session.Lifecycle.{started_status}
use kubernaut_apifrontend.Session.Lifecycle.Create.{DeleteLaw}

-- With `interfere` the next update of an object meets a conflict.
pub record MemoryWorld : Type 0 where
  pub clock : ℕ
  pub objects : Dict InvestigationSession
  pub interfere : Bool

abbrev pub find : MemoryWorld → String → ApiResult InvestigationSession
find w name = elim (lookup name w.objects) [ none ↦ err not_found | some crd ↦ ok crd ]

abbrev pub store : MemoryWorld → InvestigationSession → MemoryWorld
store w crd = record w { objects = insert crd.name crd w.objects }

abbrev pub no_status : InvestigationSessionStatus
no_status = record (started_status 0) {
  phase = other "";
  connection_state = unset;
  started_at = none;
}

abbrev pub create_in :
    MemoryWorld → InvestigationSession → MemoryWorld × ApiResult InvestigationSession
create_in w crd =
    let stored : InvestigationSession = record crd { resource_version = 1; status = no_status } in
    elim (lookup crd.name w.objects) [
      | some _ ↦ (w, err already_exists)
      | none ↦ (store w stored, ok stored)
    ]

abbrev pub status_in :
    MemoryWorld → InvestigationSession → MemoryWorld × ApiResult InvestigationSession
status_in w crd = elim (lookup crd.name w.objects) [
  | none ↦ (w, err not_found)
  | some old ↦
      let new : InvestigationSession = record old {
        status = crd.status;
        resource_version = suc old.resource_version;
      } in
      if old.resource_version == crd.resource_version
      then (store w new, ok new)
      else (w, err conflict)
]

abbrev pub update_in :
    MemoryWorld → InvestigationSession → MemoryWorld × ApiResult InvestigationSession
update_in w crd = elim (lookup crd.name w.objects) [
  | none ↦ (w, err not_found)
  | some old ↦
      let new : InvestigationSession = record crd {
        status = old.status;
        resource_version = suc old.resource_version;
      } in
      if w.interfere
      then (record w { interfere = false }, err conflict)
      else (if old.resource_version == crd.resource_version
          then (store w new, ok new)
          else (w, err conflict))
]

abbrev pub delete_in : MemoryWorld → String → MemoryWorld × Option ApiError
delete_in w name = elim (lookup name w.objects) [
  | none ↦ (w, some not_found)
  | some _ ↦ (record w { objects = delete name w.objects }, none)
]

-- RetryOnConflict with a number of further steps.
unfoldable pub retry_steps : {S : Type 0} → ℕ → (S → S × Option Err) → S → S × Option Err
retry_steps zero fn s = fn s
retry_steps (suc n) fn s =
    let (u, r) = fn s in
    let rest = retry_steps n fn u in
    elim r [ none ↦ (u, none) | some x ↦ if is_conflict x then rest else (u, some x) ]

retry_steps-Iterates :
    {S : Type 0} (n : ℕ) (fn : S → S × Option Err) (s : S)
    → Iterates fn (retry_steps n fn s).0 (retry_steps n fn s).1 s
unfolding retry_steps
retry_steps-Iterates zero fn s = stop refl
retry_steps-Iterates (suc n) fn s = go (fn s).1 refl (retry_steps-Iterates n fn (fn s).0)
  where
    go :
        (r : Option Err)
        → (fn s).1 ≡ r
        → Iterates fn (retry_steps n fn (fn s).0).0 (retry_steps n fn (fn s).0).1 (fn s).0
        → Iterates fn (retry_steps (suc n) fn s).0 (retry_steps (suc n) fn s).1 s
    go none e ih = rw (e, retry_steps) (stop (λ i. ((fn s).0, e i)))
    go (some x) e ih = elim (Bool-cases (is_conflict x)) [
      | inl c ↦ rw (e, c, retry_steps) (again (fn s).0 x (λ i. ((fn s).0, e i)) c ih)
      | inr c ↦ rw (e, c, retry_steps) (stop (λ i. ((fn s).0, e i)))
    ]

-- A tool result is its own text, and an error where a text cannot be as long.
unfoldable pub marshal_memory : Response (List ℕ) → Option (List ℕ)
marshal_memory (value v) = if ltb (length v) (2 ^ 63) then some v else none
marshal_memory (truncated n summary) = if ltb (length summary) (2 ^ 12) then some summary else none

abbrev pub memory : Env
memory = record {
  World = MemoryWorld;
  now = λ w. w.clock;
  get_cached = find;
  get_live = find;
  create_object = create_in;
  update_status = status_in;
  update_object = update_in;
  delete_object = delete_in;
  generated_name = λ w. "isess-1";
  delegate_create = λ w req. (w, ok req.session_id);
  delegate_delete = λ w id. (w, none);
  Value = List ℕ;
  marshal = marshal_memory;
  delegate_append = λ w id ev. (w, none);
  retry_on_conflict = retry_steps 4;
}

pub marshal_memory-MarshalLaw : MarshalLaw marshal_memory
unfolding marshal_memory
marshal_memory-MarshalLaw = record { bounded = bounded; small = small }
  where
    bounded :
        (r : Response (List ℕ)) (raw : List ℕ) → marshal_memory r ≡ some raw → length raw < 2 ^ 63
    bounded (value v) raw h = ground arith
    bounded (truncated n summary) raw h = ground arith

    small :
        (n : ℕ) (summary raw : List ℕ)
        → n < 2 ^ 63
        → marshal_memory (truncated n summary) ≡ some raw
        → length raw ≤ 100 + 6 * length summary
    small n summary raw h e = ground arith

pub memory-RetryLaw : RetryLaw memory
memory-RetryLaw fn s = retry_steps-Iterates 4 fn s

pub memory-DeleteLaw : DeleteLaw memory
memory-DeleteLaw w name h = elim (Option-cases (lookup name w.objects)) [
  | inl k ↦ absurd (missing k h)
  | inr (crd, k) ↦ gone k
]
  where
    missing : lookup name w.objects ≡ none → (delete_in w name).1 ≡ none → ⊥
    missing k q = ground arith

    gone :
        {crd : InvestigationSession}
        → lookup name w.objects ≡ some crd
        → find (delete_in w name).0 name ≡ err not_found
    gone k = ground (arith, lookup-delete_self name w.objects)

-- The status subresource: an update of it leaves the labels, and answers with the stored ones.
pub memory-StatusLaw :
    (w : MemoryWorld) (crd stored answered : InvestigationSession)
    → find w crd.name ≡ ok stored
    → (status_in w crd).1 ≡ ok answered
    → answered.labels ≡ stored.labels
memory-StatusLaw w crd stored answered live h = elim (Option-cases (lookup crd.name w.objects)) [
  | inl k ↦ ground arith
  | inr (old, k) ↦ elim (Bool-cases (old.resource_version == crd.resource_version)) [
    | inl same ↦ ground arith
    | inr stale ↦ ground arith
  ]
]
