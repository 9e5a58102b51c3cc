-- ===== src/Session/Lifecycle/Books.antt =====
-- The bookkeeping of Create and Delete (internal/session/service.go), and the labels of a new CRD.
use kubernaut_apifrontend.Common.{
  ℕ, String, ◌≡◌, refl, none, some, List, arith, if◌then◌else◌, str_eq, eq_iff, codes,
}
use kubernaut_apifrontend.Common.Dict.{
  Dict, lookup, insert, lookup-insert, lookup-insert_self, lookup-delete, lookup-delete_self,
}
use kubernaut_apifrontend.Common.Int.{ℤ, pos, ◌+ℤ◌, ◌-ℤ◌, int_laws}
use kubernaut_apifrontend.Session.Phase.{SessionPhase, active, phase_eq, phase_string}
use kubernaut_apifrontend.Session.Labels.Valid.{IsLabelValue, sanitize_label_value-IsLabelValue}
use kubernaut_apifrontend.Session.Crd.{Env, CreateConfig, config}
use kubernaut_apifrontend.Session.Service.{CrdSessionService, Gauge, label_phase, crd_name_of}
use kubernaut_apifrontend.Session.Lifecycle.{
  register, requested_crd, label_user, label_rr_name, label_managed_by, delete_session,
  deleted_phase,
}

cancel_one : (n : ℤ) → (n +ℤ pos 1) -ℤ pos 1 ≡ n
cancel_one n = omega int_laws

-- One session up and one down at Active.
restored : Gauge → Gauge
unfolding phase_eq
restored g q =
    let up = if phase_eq active q then g q +ℤ pos 1 else g q in
    if phase_eq active q then up -ℤ pos 1 else up

restored_lem : (g : Gauge) (q : SessionPhase) → restored g q ≡ g q
unfolding restored
restored_lem g q = ground (arith, cancel_one (g q))

crd_name_of-register :
    (s : CrdSessionService) (id name user : String)
    → crd_name_of (register s id name user) id ≡ name
unfolding crd_name_of register
crd_name_of-register s id name user = ground (arith, lookup-insert_self id name s.crd_index)

module _ (e : Env) where
  open e use {World}

  -- Deleting a session that was just registered, while its CRD is in the phase Active or cannot
  -- be read, restores the gauge at every phase and the index for every other session; the
  -- session itself is in the index no more.
  pub delete_session-register :
      (s : CrdSessionService) (w : World) (id j name user user' : String) (g : Gauge)
      → s.sessions_active ≡ some g
      → deleted_phase e (register s id name user) w name ≡ active
      → let s' = (delete_session e (register s id name user) w id user').1 in
        ((g' : Gauge) × (s'.sessions_active ≡ some g') × ((q : SessionPhase) → g' q ≡ g q))
        × (lookup id s'.crd_index ≡ none)
        × (lookup j s'.crd_index ≡ (if str_eq id j then none else lookup j s.crd_index))
  unfolding delete_session register
  delete_session-register s w id j name user user' g h d = (
    (
      restored g,
      simp (h, crd_name_of-register s id name user, d) (unfold restored in refl),
      restored_lem g,
    ),
    lookup-delete_self id (insert id name s.crd_index),
    ground (
      arith,
      lookup-delete id j (insert id name s.crd_index),
      lookup-insert id j name s.crd_index,
      eq_iff id j,
    ),
  )

-- The CRD of a session with a configuration carries four labels; user and remediation request are
-- valid label values, whatever the configuration holds.
pub requested_crd-labels :
    (s : CrdSessionService) (name : String) (now : ℕ) (c : CreateConfig)
    → (l : Dict (List ℕ)) × ((requested_crd s name now (config c)).labels ≡ some l)
      × ((user : List ℕ) × (lookup label_user l ≡ some user) × IsLabelValue user)
      × ((rr : List ℕ) × (lookup label_rr_name l ≡ some rr) × IsLabelValue rr)
      × (lookup label_phase l ≡ some (codes (phase_string active)))
      × (lookup label_managed_by l ≡ some (codes "kubernaut-apifrontend"))
unfolding requested_crd lookup
requested_crd-labels s name now c = (
  _,
  refl,
  (_, refl, sanitize_label_value-IsLabelValue (codes c.user.username)),
  (_, refl, sanitize_label_value-IsLabelValue (codes c.remediation_ref.name)),
  refl,
  refl,
)
