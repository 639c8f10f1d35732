-- ===== src/Correlation/Engine/Leaves.antt =====
-- internal/correlation/engine.go over the memory store: what Process leaves behind.
use griefer_security_platfor.Prelude.{
  ℕ, String, ◌≡◌, refl, sym, ◌∙◌, inl, inr, none, some, List, [], ◌∷◌, ◌==◌, eq_refl, Bool-cases,
}
use griefer_security_platfor.Prelude.Result.{ok}
use griefer_security_platfor.Prelude.Text.{Unicode}
use griefer_security_platfor.Events.{SecurityEvent}
use griefer_security_platfor.Graph.Store.{Graph}
use griefer_security_platfor.Incidents.{Incident, Finding}
use griefer_security_platfor.Storage.{MemoryStore, StoreError, Written, get_incident, save_incident}
use griefer_security_platfor.Storage.Index.{get_incident-save_incident}
use griefer_security_platfor.Correlation.Derive.{Env}
use griefer_security_platfor.Correlation.Evaluate.{Run}
use griefer_security_platfor.Correlation.Engine.{
  Engine, Processed, not_persisted, no_finding, touched, process, saved, merge_if_any,
  merge_into_incident,
}
use griefer_security_platfor.Correlation.Engine.Memory.{memory_incidents, save_incident-cases}
use mathlib.Core.Path.{subst}

-- The answer is true of the store that it comes with: an incident that was touched is read back as it
-- was reported, and otherwise nothing was written.
pub Answers : MemoryStore → Processed StoreError → MemoryStore → Type 0
Answers s (not_persisted e) t = t ≡ s
Answers s no_finding t = t ≡ s
Answers s (touched inc) t = get_incident inc.id t ≡ ok inc

-- Nothing in the store changes but its incidents.
abbrev pub SavesOnly : MemoryStore → MemoryStore → Type 0
SavesOnly s t = t ≡ record s { incidents = t.incidents; incident_order = t.incident_order }

abbrev Leaves : MemoryStore → Processed StoreError × Engine × MemoryStore → Type 0
Leaves s out = SavesOnly s out.2 × Answers s out.0 out.2

save_incident-SavesOnly :
    (inc : Incident) (s : MemoryStore) → SavesOnly s (save_incident (some inc) s).0
save_incident-SavesOnly inc s = elim (Bool-cases (inc.id == "")) [
  | inl e ↦ unfold save_incident in rw e refl
  | inr e ↦ unfold save_incident in rw e refl
]

saved-Leaves :
    (subject : String) (at : ℕ) (inc : Incident) (engine : Engine) (s : MemoryStore)
    → Leaves s (saved memory_incidents subject at inc engine (save_incident (some inc) s))
unfolding Answers saved
saved-Leaves subject at inc engine s =
    let left : Written → Type 0 = λ w. Leaves s (saved memory_incidents subject at inc engine w) in
    elim (save_incident-cases inc s) [
      | inl refused ↦ subst left (sym refused) (refl, refl)
      | inr (named, q) ↦
          let t = (save_incident (some inc) s).0 in
          let accepted : save_incident (some inc) s ≡ (t, none) = λ i. (t, q i) in
          subst left (sym accepted) (
            save_incident-SavesOnly inc s,
            get_incident-save_incident inc inc.id s named ∙ rw (eq_refl inc.id) refl,
          )
    ]

merge_if_any-Leaves :
    (env : Env) (run : Run) (ev : SecurityEvent) (subject : String) (findings : List Finding)
    (g : Graph) (engine : Engine) (s : MemoryStore)
    → Leaves s (merge_if_any memory_incidents env run ev subject findings g engine s)
unfolding merge_if_any merge_into_incident
merge_if_any-Leaves env run ev subject [] g engine s = unfold Answers in (refl, refl)
merge_if_any-Leaves env run ev subject (f ∷ fs) g engine s = search saved-Leaves

-- Over the memory store, Process changes nothing but incidents: the stored events, the actions and
-- the audit trail are as before, whatever the event. What it answers is true of the store that it
-- leaves: an incident that it reports as touched is read back under its id as it was reported, and
-- with an error or without a finding the store is unchanged.
pub process-Answers :
    (u : Unicode) (env : Env) (run : Run) (ev : SecurityEvent) (g : Graph) (engine : Engine)
    (s : MemoryStore)
    → let out = process memory_incidents u env run ev g engine s in
      SavesOnly s out.2 × Answers s out.0 out.2
process-Answers u env run ev g engine s = unfold process in search merge_if_any-Leaves
