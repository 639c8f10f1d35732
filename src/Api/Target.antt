-- ===== src/Api/Target.antt =====
-- internal/api/service.go: the entity that an action applies to.
use griefer_security_platfor.Prelude.{
  ℕ, ◌≤◌, String, ◌≡◌, refl, ap, ◌≢◌, inl, inr, Bool, true, false, Option, none, some, List, [],
  ◌∷◌, arith, ◌==◌, ltb, if◌then◌else◌, Bool-cases, All, Any, text_eq-false_of_ne,
}
use griefer_security_platfor.Prelude.Int.{ℤ, pos, negsuc}
use griefer_security_platfor.Graph.{rank, criticality_critical, Entity}
use griefer_security_platfor.Graph.Store.{Graph, entity}
use griefer_security_platfor.Incidents.{Incident, EntityRef, RecommendedAction}

-- findRecommendation, over the recommendations
find_recommendation : String → List RecommendedAction → Option RecommendedAction
find_recommendation action_type [] = none
find_recommendation action_type (r ∷ rs) =
    if r.action_type == action_type then some r else find_recommendation action_type rs

-- The best entity so far; a rank of -1 stands for none yet.
record Best : Type 0 where
  id : String
  critical : Bool
  best_rank : ℤ

below : ℤ → ℕ → Bool
below (negsuc _) n = true
below (pos m) n = ltb m n

abbrev is_critical : String → Bool
is_critical c = c == criticality_critical

consider : EntityRef → Best → Best
unfolding below
consider e b =
    if below b.best_rank (rank e.criticality)
    then record {
      id = e.id;
      critical = is_critical e.criticality;
      best_rank = pos (rank e.criticality);
    }
    else b

most_critical : List EntityRef → Best → Best
unfolding consider
most_critical [] b = b
most_critical (e ∷ es) b = most_critical es (consider e b)

-- The fallback at the end of resolveActionTarget.
pub fallback_target : List EntityRef → String × Bool
unfolding most_critical
fallback_target es =
    let b = most_critical es (record { id = ""; critical = false; best_rank = negsuc 0 }) in
    (b.id, b.critical)

recommended_target : RecommendedAction → Option Entity → String × Bool
recommended_target r (some e) = (e.id, is_critical e.criticality)
recommended_target r none = (r.target_entity_id, r.targets_critical_asset)

target_of : Graph → List EntityRef → Option RecommendedAction → String × Bool
unfolding recommended_target fallback_target
target_of g es none = fallback_target es
target_of g es (some r) =
    if r.target_entity_id == ""
    then fallback_target es
    else recommended_target r (entity r.target_entity_id g)

-- resolveActionTarget, for the recommendation that findRecommendation returns
unfoldable pub resolve_action_target : Graph → Incident → String → String × Bool
unfolding target_of find_recommendation
resolve_action_target g inc action_type =
    target_of g inc.entities (find_recommendation action_type inc.recommended_actions)

rank_le : (c : String) → rank c ≤ 3
unfolding rank
rank_le c = ground arith

rank-critical : (c : String) → rank c ≡ 3 → is_critical c ≡ true
unfolding rank
rank-critical c h = ground arith

critical-rank : (c : String) → is_critical c ≡ true → rank c ≡ 3
unfolding rank
critical-rank c h = ground arith

-- What the loop keeps: a rank is at most the highest one, and the flag is up where it is that.
abbrev Fits : ℤ → Bool → Type 0
Fits (negsuc _) critical = Unit
Fits (pos m) critical = (m ≤ 3) × (m ≡ 3 → critical ≡ true)

abbrev IsTop : Best → Type 0
IsTop b = (b.best_rank ≡ pos 3) × (b.critical ≡ true)

consider-Fits :
    (e : EntityRef) (b : Best)
    → Fits b.best_rank b.critical
    → Fits (consider e b).best_rank (consider e b).critical
consider-Fits e b v = elim (Bool-cases (below b.best_rank (rank e.criticality))) [
  | inl h ↦ unfold consider in rw h (rank_le e.criticality, rank-critical e.criticality)
  | inr h ↦ unfold consider in rw h v
]

consider_keeps_IsTop : (e : EntityRef) (b : Best) → IsTop b → IsTop (consider e b)
consider_keeps_IsTop e b h =
    let no : below (pos 3) (rank e.criticality) ≡ false =
      unfold below in ground (arith, rank_le e.criticality) in
    unfold consider in rw (h.0, no) (refl, h.1)

at_top :
    (r : ℤ) (critical : Bool)
    → Fits r critical
    → below r 3 ≡ false
    → (r ≡ pos 3) × (critical ≡ true)
unfolding below
at_top (negsuc n) critical f h = cc
at_top (pos m) critical f h = let e : m ≡ 3 = ground (arith, f.0) in (ap pos e, f.1 e)

consider_reaches-IsTop :
    (e : EntityRef) (b : Best)
    → Fits b.best_rank b.critical
    → is_critical e.criticality ≡ true
    → IsTop (consider e b)
consider_reaches-IsTop e b f h =
    let r = critical-rank e.criticality h in
    elim (Bool-cases (below b.best_rank (rank e.criticality))) [
      | inl lower ↦ unfold consider in rw lower (rw r, h)
      | inr not_lower ↦
          unfold consider in rw not_lower (at_top b.best_rank b.critical f (rw r at not_lower))
    ]

most_critical_keeps_IsTop : (es : List EntityRef) (b : Best) → IsTop b → IsTop (most_critical es b)
unfolding most_critical
most_critical_keeps_IsTop [] b h = h
most_critical_keeps_IsTop (e ∷ es) b h =
    most_critical_keeps_IsTop es (consider e b) (consider_keeps_IsTop e b h)

most_critical-IsTop :
    (es : List EntityRef) (b : Best)
    → Fits b.best_rank b.critical
    → Any (λ e. e.criticality ≡ criticality_critical) es
    → IsTop (most_critical es b)
unfolding most_critical
most_critical-IsTop [] b f h = absurd h
most_critical-IsTop (e ∷ es) b f (inl h) =
    most_critical_keeps_IsTop es (consider e b) (consider_reaches-IsTop e b f (rw h))
most_critical-IsTop (e ∷ es) b f (inr h) =
    most_critical-IsTop es (consider e b) (consider-Fits e b f) h

not_recommended :
    (t : String) (rs : List RecommendedAction)
    → All (λ r. r.action_type ≢ t) rs
    → find_recommendation t rs ≡ none
unfolding find_recommendation
not_recommended t [] u = refl
not_recommended t (r ∷ rs) u = rw (text_eq-false_of_ne _ _ u.0) (not_recommended t rs u.1)

-- An action that nothing recommended is judged as one that touches a critical asset as soon as any
-- entity of the incident is critical.
pub resolve_action_target_critical :
    (g : Graph) (inc : Incident) (action_type : String)
    → All (λ r. r.action_type ≢ action_type) inc.recommended_actions
    → Any (λ e. e.criticality ≡ criticality_critical) inc.entities
    → (resolve_action_target g inc action_type).1 ≡ true
resolve_action_target_critical g inc action_type unlisted h =
    let none_found = not_recommended action_type inc.recommended_actions unlisted in
    let top =
      most_critical-IsTop inc.entities (record { id = ""; critical = false; best_rank = negsuc 0 })
        tt h in
    unfold resolve_action_target in rw none_found (unfold target_of fallback_target in top.1)
