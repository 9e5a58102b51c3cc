-- ===== src/Controller/Direct.antt =====
-- The label of a session that is cancelled without a session service (internal/controller/ttl.go).
use kubernaut_apifrontend.Common.{
  ℕ, String, List, [], ◌∷◌, Option, ◌⊎◌, ◌∙◌, str_eq, codes, ◌≡◌, refl, subst, inl, inr, none, some,
  Bool-cases, Option-cases,
}
use kubernaut_apifrontend.Common.Dict.{Dict, lookup, lookup-insert, lookup-insert_self}
use kubernaut_apifrontend.Session.Crd.{InvestigationSession, Env, ok, ApiResult-cases}
use kubernaut_apifrontend.Session.Service.{label_phase}
use kubernaut_apifrontend.Controller.{
  cancel_directly, cancelled_in_memory, merged_labels, decoded_labels, decoded_into, or_empty,
}

-- The status subresource: an update of it leaves the labels, and answers with the stored ones.
abbrev pub StatusLaw : Env → Type 0
StatusLaw e =
    (w : e.World) (crd stored answered : InvestigationSession)
    → e.get_live w crd.name ≡ ok stored
    → (e.update_status w crd).1 ≡ ok answered
    → answered.labels ≡ stored.labels

-- The value of a label, if the object has it.
abbrev pub label_of : String → Option (Dict (List ℕ)) → Option (List ℕ)
label_of key none = none
label_of key (some l) = lookup key l

lookup-merged_labels :
    (key : String) (answered old : Dict (List ℕ))
    → lookup key (merged_labels answered old)
      ≡ (elim (lookup key answered) [ some v ↦ some v | none ↦ lookup key old ])
unfolding merged_labels lookup
lookup-merged_labels key [] old = refl
lookup-merged_labels key ((k, v) ∷ more) old = elim (Bool-cases (str_eq k key)) [
  | inl same ↦ rw (lookup-insert k key v (merged_labels more old), same) refl
  | inr other ↦
      rw (lookup-insert k key v (merged_labels more old), other) (lookup-merged_labels key more old)
]

-- A label of the answer wins; one that the answer does not have is the one of the object.
label_of-decoded_labels :
    (key : String) (answered old : Option (Dict (List ℕ)))
    → label_of key (decoded_labels answered old)
      ≡ (elim (label_of key answered) [ some v ↦ some v | none ↦ label_of key old ])
unfolding decoded_labels or_empty lookup
label_of-decoded_labels key none old = refl
label_of-decoded_labels key (some l) none = lookup-merged_labels key l []
label_of-decoded_labels key (some l) (some m) = lookup-merged_labels key l m

cancelled_label :
    (now : ℕ) (sess : InvestigationSession)
    → label_of label_phase (cancelled_in_memory now sess).labels ≡ some (codes "Cancelled")
unfolding cancelled_in_memory
cancelled_label now sess = lookup-insert_self label_phase _ (or_empty sess.labels)

module _ (e : Env) where
  open e use {World, now, get_live, update_status, update_object}

  -- The object of the second write, after the first one was answered.
  pub record Sent (w : World) (sess stored : InvestigationSession) (r : World) : Type 0 where
    pub object : InvestigationSession
    pub written :
        r ≡ (update_object (update_status w (cancelled_in_memory (now w) sess)).0 object).0
    pub label :
        ((old : List ℕ) × (label_of label_phase stored.labels ≡ some old)
          × (label_of label_phase object.labels ≡ some old))
        ⊎ ((label_of label_phase stored.labels ≡ none)
            × (label_of label_phase object.labels ≡ some (codes "Cancelled")))

  -- Without a session service, the label change that is made before the status update is lost where
  -- the stored session has a phase label: the answer brings the stored label back, and the second
  -- write sends that one. Only where the stored session has no phase label does it send "Cancelled".
  pub cancel_directly_labels :
      StatusLaw e
      → (w : World) (sess stored answered : InvestigationSession) → get_live w sess.name ≡ ok stored
      → (update_status w (cancelled_in_memory (now w) sess)).1 ≡ ok answered
      → Sent w sess stored (cancel_directly e w sess).0
  unfolding cancel_directly decoded_into
  cancel_directly_labels law w sess stored answered live k =
      let changed = cancelled_in_memory (now w) sess in
      let w' = (update_status w changed).0 in
      let object = decoded_into changed answered in
      let labels : answered.labels ≡ stored.labels = law w changed stored answered live k in
      let sent : label_of label_phase object.labels ≡ (elim (label_of label_phase stored.labels) [
        | some v ↦ some v
        | none ↦ label_of label_phase changed.labels
      ]) =
        subst
          (λ l. label_of label_phase object.labels ≡ (elim (label_of label_phase l) [
            | some v ↦ some v
            | none ↦ label_of label_phase changed.labels
          ]))
          labels (label_of-decoded_labels label_phase answered.labels changed.labels) in
      let written : (cancel_directly e w sess).0 ≡ (update_object w' object).0 =
        elim (ApiResult-cases (update_object w' object).1) [
          | inl (_, u) ↦ simp (k, u, cancel_directly) refl
          | inr (_, u) ↦ simp (k, u, cancel_directly) refl
        ] in
      elim (Option-cases (label_of label_phase stored.labels)) [
        | inl absent ↦ record {
          object = object;
          written = written;
          label = inr (absent, sent ∙ rw absent (cancelled_label (now w) sess));
        }
        | inr (old, present) ↦ record {
          object = object;
          written = written;
          label = inl (old, present, sent ∙ rw present refl);
        }
      ]
