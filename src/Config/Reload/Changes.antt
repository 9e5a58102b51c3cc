-- ===== src/Config/Reload/Changes.antt =====
-- What a change of the file leads to: handleFileChange of internal/config/hotreload.go.
use kubernaut_apifrontend.Common.{
  ℕ, suc, ◌≤◌, ◌≡◌, ◌≢◌, refl, sym, subst, ◌∙◌, ◌⊎◌, inl, inr, Bool, true, false, Option, none,
  some, List, ltb, length, take, arith, Bool-cases, Option-cases, str_eq, eq_iff,
}
use kubernaut_apifrontend.Config.Reload.{
  ReloadEnv, ReadResult, content, read_failed, too_large, ReloadEvent, config_rejected,
  config_reloaded, FileWatcher, max_config_size, limited, read_file_limited, loaded,
  handle_file_change,
}

pub ReadResult-cases :
    (r : ReadResult) → ((c : List ℕ) × (r ≡ content c)) ⊎ ((r ≡ read_failed) ⊎ (r ≡ too_large))
ReadResult-cases (content c) = inl (c, refl)
ReadResult-cases read_failed = inr (inl refl)
ReadResult-cases too_large = inr (inr refl)

limited-short : (max : ℕ) (file c : List ℕ) → limited max file ≡ content c → length c ≤ max
unfolding limited
limited-short max file c h = elim (Bool-cases (ltb max (length (take (suc max) file)))) [
  | inl big ↦ absurd (let z : too_large ≡ content c = rw big at h in cc)
  | inr fits ↦
      let z : content (take (suc max) file) ≡ content c = rw fits at h in
      let q : take (suc max) file ≡ c = cc in subst (λ x. length x ≤ max) q (ground arith)
]

module _ (e : ReloadEnv) where
  open e use {World, now, read_file, callback, compute_hash}

  -- A content of at most 1 MiB that the callback accepted, with its hash.
  pub record IsAccepted (fw : FileWatcher) : Type 0 where
    pub short : length fw.last_content ≤ max_config_size
    pub at : World
    pub accepted : (callback at fw.last_content).1 ≡ true
    pub hashed : fw.last_hash ≡ compute_hash fw.last_content

  content-short :
      (w : World) (c : List ℕ) → (read_file_limited e w).1 ≡ content c → length c ≤ max_config_size
  unfolding read_file_limited
  content-short w c h = elim (Option-cases (read_file w).1) [
    | inl gone ↦ absurd (ground (arith, gone, h))
    | inr (file, got) ↦ limited-short max_config_size file c (sym (rw got refl) ∙ h)
  ]

  pub loaded-IsAccepted :
      (w w' at : World) (c : List ℕ)
      → (read_file_limited e w).1 ≡ content c
      → (callback at c).1 ≡ true
      → IsAccepted (loaded e w' c)
  unfolding loaded
  loaded-IsAccepted w w' at c h a = record {
    short = content-short w c h;
    at = at;
    accepted = a;
    hashed = refl;
  }

  abbrev pub read : World → World × ReadResult
  read w = read_file_limited e w

  abbrev pub asked : World → List ℕ → World × Bool
  asked w c = callback (read w).0 c

  -- How a change of the file is handled.
  pub data Changes (w : World) (fw : FileWatcher) (r : World × FileWatcher × Option ReloadEvent)
      : Type 0 where
    unread : ((c : List ℕ) → (read w).1 ≢ content c) → r ≡ ((read w).0, fw, none) → Changes w fw r
    unchanged :
        (c : List ℕ)
        → (read w).1 ≡ content c
        → compute_hash c ≡ fw.last_hash
        → r ≡ ((read w).0, fw, none)
        → Changes w fw r
    not_accepted :
        (c : List ℕ)
        → (read w).1 ≡ content c
        → compute_hash c ≢ fw.last_hash
        → (asked w c).1 ≡ false
        → r ≡ ((asked w c).0, fw, some (config_rejected (compute_hash c)))
        → Changes w fw r
    reloaded :
        (c : List ℕ)
        → (read w).1 ≡ content c
        → compute_hash c ≢ fw.last_hash
        → (asked w c).1 ≡ true
        → r ≡ ((asked w c).0, loaded e (asked w c).0 c, some (config_reloaded (compute_hash c)))
        → Changes w fw r

  -- A change of the file has an effect only if the file can be read, has at most 1 MiB and another
  -- hash than the content in force. Then the callback decides: if it accepts the content, this is in
  -- force and the reload is audited, otherwise the content in force stays and the rejection is
  -- audited.
  pub handle_file_change-Changes :
      (w : World) (fw : FileWatcher) → Changes w fw (handle_file_change e w fw)
  unfolding handle_file_change
  handle_file_change-Changes w fw = elim (ReadResult-cases (read w).1) [
    | inr (inl r) ↦
        rw (r, handle_file_change)
          (unread (λ c h. absurd (let z : read_failed ≡ content c = sym r ∙ h in cc)) refl)
    | inr (inr r) ↦
        rw (r, handle_file_change)
          (unread (λ c h. absurd (let z : too_large ≡ content c = sym r ∙ h in cc)) refl)
    | inl (c, r) ↦ elim (Bool-cases (str_eq (compute_hash c) fw.last_hash)) [
      | inl same ↦
          rw (r, handle_file_change)
            (rw (same, handle_file_change)
              (unchanged c r ((eq_iff (compute_hash c) fw.last_hash).0 same) refl))
      | inr other ↦
          let differs : compute_hash c ≢ fw.last_hash =
            λ q. absurd (ground (arith, other, q, eq_iff (compute_hash c) fw.last_hash)) in
          elim (Bool-cases (asked w c).1) [
            | inl yes_accepted ↦
                rw (r, handle_file_change)
                  (rw (other, handle_file_change)
                    (rw (yes_accepted, handle_file_change)
                      (reloaded c r differs yes_accepted refl)))
            | inr no_accepted ↦
                rw (r, handle_file_change)
                  (rw (other, handle_file_change)
                    (rw (no_accepted, handle_file_change)
                      (not_accepted c r differs no_accepted refl)))
          ]
    ]
  ]
