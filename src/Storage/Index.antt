-- ===== src/Storage/Index.antt =====
-- The maps of incidents and actions, each with the order in which its keys came.
use griefer_security_platfor.Prelude.{
  String, ◌≡◌, ◌∙◌, ◌≢◌, inl, inr, Bool, true, false, Option, none, some, List, [], ◌∷◌, ◌++◌,
  arith, ◌==◌, eq_iff, if◌then◌else◌, Bool-cases, Option-cases, text_eq-false_of_ne,
}
use griefer_security_platfor.Prelude.Dict.{contains, lookup, insert, lookup-insert}
use griefer_security_platfor.Prelude.Texts.{IsDistinct, IsDistinct-snoc, contains-append}
use griefer_security_platfor.Prelude.Result.{ok}
use griefer_security_platfor.Incidents.{Incident, ResponseAction}
use griefer_security_platfor.Storage.{
  MemoryStore, remember, save_incident, get_incident, save_action, get_action, save_action_locked,
  found,
}

abbrev pub is_some {ℓ} : {A : Type ℓ} → Option A → Bool
is_some none = false
is_some (some _) = true

-- The order lists the keys of the map, each once, and a value stands under its own id.
pub record IndexValid {ℓ} {V : Type ℓ} (id : V → String) (m : List (String × V))
    (order : List String) : Type ℓ where
  pub listed : (k : String) → contains order k ≡ is_some (lookup k m)
  pub once : IsDistinct order
  pub own : (k : String) (v : V) → lookup k m ≡ some v → id v ≡ k

module _ {ℓ} {V : Type ℓ} (id : V → String) (m : List (String × V)) (order : List String)
    (h : IndexValid id m order) (v : V) where
  listed_known :
      (w : V)
      → lookup (id v) m ≡ some w
      → (k : String) → contains order k ≡ is_some (lookup k (insert (id v) v m))
  listed_known w known k = elim (Bool-cases (id v == k)) [
    | inl e ↦ rw (lookup-insert (id v) k v m, e) (h.listed k ∙ cc ((eq_iff (id v) k).0 e))
    | inr e ↦ rw (lookup-insert (id v) k v m, e) (h.listed k)
  ]

  listed_new :
      (k : String) → contains (order ++ id v ∷ []) k ≡ is_some (lookup k (insert (id v) v m))
  listed_new k =
      rw (contains-append order (id v ∷ []) k, lookup-insert (id v) k v m)
        (unfold contains in ground (arith, h.listed k))

  own_inserted : (k : String) (w : V) → lookup k (insert (id v) v m) ≡ some w → id w ≡ k
  own_inserted k w e = ground (arith, lookup-insert (id v) k v m, eq_iff (id v) k, h.own k w)

  pub remember-IndexValid : IndexValid id (insert (id v) v m) (remember (id v) m order)
  remember-IndexValid = elim (Option-cases (lookup (id v) m)) [
    | inl new ↦
        unfold remember in
        rw new (record {
          listed = listed_new;
          once = IsDistinct-snoc order (id v) h.once (cc (h.listed (id v)));
          own = own_inserted;
        })
    | inr (w, known) ↦
        unfold remember in
        rw known (record { listed = listed_known w known; once = h.once; own = own_inserted })
  ]

-- Reading an incident after one was saved: the saved one under its id, and every other as before.
pub get_incident-save_incident :
    (inc : Incident) (k : String) (s : MemoryStore)
    → inc.id ≢ ""
    → get_incident k (save_incident (some inc) s).0
      ≡ (if inc.id == k then ok inc else get_incident k s)
get_incident-save_incident inc k s named =
    unfold get_incident save_incident in
    rw (text_eq-false_of_ne _ _ named) (rw lookup-insert (unfold found in ground arith))

-- Reading an action after one was saved, likewise.
pub get_action-save_action :
    (action : ResponseAction) (k : String) (s : MemoryStore)
    → action.id ≢ ""
    → get_action k (save_action (some action) s).0
      ≡ (if action.id == k then ok action else get_action k s)
get_action-save_action action k s named =
    unfold get_action save_action save_action_locked in
    rw (text_eq-false_of_ne _ _ named) (rw lookup-insert (unfold found in ground arith))
