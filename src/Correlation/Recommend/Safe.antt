-- ===== src/Correlation/Recommend/Safe.antt =====
-- What an incident recommends is in the catalog and undoes no evidence.
use griefer_security_platfor.Prelude.{
  String, ◌≡◌, refl, sym, ap, ◌∙◌, ◌⊎◌, inl, inr, Bool, true, false, ◌&&◌, Option, none, some, List,
  [], ◌∷◌, ◌==◌, Bool-cases, Option-cases, All, Any,
}
use griefer_security_platfor.Prelude.{All-append, Any-map}
use griefer_security_platfor.Prelude.Result.{Result, ok, err}
use griefer_security_platfor.Graph.{criticality_critical}
use griefer_security_platfor.Incidents.{Finding, EntityRef, RecommendedAction}
use griefer_security_platfor.Incidents.Catalog.{
  ActionSpec, CatalogError, lookup_action, lookup_action-IsSound,
}
use griefer_security_platfor.Correlation.Recommend.{
  best_of, is_better, or_later, first_target, resolve_target, proposal, aim, unless_destructive,
  propose, propose_all, recommend_actions,
}

-- An action aims at the incident itself, or at one of its entities, and says so where that is a
-- critical asset.
abbrev pub IsAimed : List EntityRef → RecommendedAction → Type 0
IsAimed entities a =
    ((a.target_entity_id ≡ "") × (a.targets_critical_asset ≡ false))
    ⊎ Any
        (λ e.
          (a.target_entity_id ≡ e.id)
          × (a.targets_critical_asset ≡ (e.criticality == criticality_critical)))
        entities

-- An action is one of the catalog, that destroys nothing, with the catalog's way back.
pub record IsProposal (entities : List EntityRef) (a : RecommendedAction) : Type 0 where
  pub spec : ActionSpec
  pub catalogued : lookup_action a.action_type ≡ ok spec
  pub harmless : (a.destructive ≡ false) × (spec.destructive ≡ false)
  pub way_back : (a.reversible ≡ spec.reversible) × (a.rollback_action ≡ spec.rollback_action)
  pub aimed : IsAimed entities a

abbrev IsOneOf : List EntityRef → EntityRef → Type 0
IsOneOf entities e = Any (λ x. x ≡ e) entities

best_of-IsOneOf :
    (wanted : String) (best : Option EntityRef) (es : List EntityRef) (e : EntityRef)
    → best_of wanted best es ≡ some e
    → (best ≡ some e) ⊎ IsOneOf es e
unfolding best_of
best_of-IsOneOf wanted best [] e h = inl h
best_of-IsOneOf wanted best (x ∷ es) e h =
    elim (Bool-cases (x.kind == wanted && is_better x best)) [
      | inl t ↦ elim (best_of-IsOneOf wanted (some x) es e (rw t at h)) [
        | inl q ↦ inr (inl cc)
        | inr q ↦ inr (inr q)
      ]
      | inr t ↦ elim (best_of-IsOneOf wanted best es e (rw t at h)) [
        | inl q ↦ inl q
        | inr q ↦ inr (inr q)
      ]
    ]

first_target-IsOneOf :
    (ts : List String) (es : List EntityRef) (e : EntityRef)
    → first_target ts es ≡ some e
    → IsOneOf es e
unfolding first_target or_later
first_target-IsOneOf [] es e h = cc
first_target-IsOneOf (t ∷ ts) es e h = elim (Option-cases (best_of t none es)) [
  | inl q ↦ first_target-IsOneOf ts es e (rw q at h)
  | inr (x, q) ↦
      let found : some x ≡ some e = rw q at h in
      elim (best_of-IsOneOf t none es e (q ∙ found)) [ inl r ↦ cc | inr r ↦ r ]
]

aim-IsAimed :
    (t : String) (spec : ActionSpec) (entities : List EntityRef) (o : Option EntityRef)
    → ((e : EntityRef) → o ≡ some e → IsOneOf entities e)
    → IsAimed entities (aim o (proposal t spec))
unfolding aim proposal
aim-IsAimed t spec entities none h = inl (refl, refl)
aim-IsAimed t spec entities (some e) h = inr (
    Any-map
      (λ x q. (ap (λ y. y.id) (sym q), ap (λ y. y.criticality == criticality_critical) (sym q)))
      entities (h e refl))

resolve_target-IsOneOf :
    (t : String) (es : List EntityRef) (e : EntityRef) → resolve_target t es ≡ some e → IsOneOf es e
unfolding resolve_target
resolve_target-IsOneOf t es e h = search first_target-IsOneOf

-- The target changes nothing else of an action.
pub aim_kept :
    (o : Option EntityRef) (a : RecommendedAction)
    → ((aim o a).action_type ≡ a.action_type)
      × ((aim o a).destructive ≡ a.destructive)
      × ((aim o a).reversible ≡ a.reversible)
      × ((aim o a).rollback_action ≡ a.rollback_action)
unfolding aim
aim_kept none a = (refl, refl, refl, refl)
aim_kept (some e) a = (refl, refl, refl, refl)

aim-IsProposal :
    (t : String) (spec : ActionSpec) (entities : List EntityRef) (o : Option EntityRef)
    → lookup_action t ≡ ok spec
    → spec.destructive ≡ false
    → ((e : EntityRef) → o ≡ some e → IsOneOf entities e)
    → IsProposal entities (aim o (proposal t spec))
unfolding proposal
aim-IsProposal t spec entities o h e targets =
    let named : spec.type_name ≡ t = (lookup_action-IsSound t spec h).0 in
    let kept = aim_kept o (proposal t spec) in
    record {
      spec = spec;
      catalogued = ap lookup_action (kept.0 ∙ named) ∙ h;
      harmless = (kept.1 ∙ e, e);
      way_back = (kept.2, kept.3);
      aimed = aim-IsAimed t spec entities o targets;
    }

unless_destructive-All :
    (P : RecommendedAction → Type 0) (b : Bool) (a : RecommendedAction)
    → (b ≡ false → P a)
    → All P (unless_destructive b a)
unfolding unless_destructive
unless_destructive-All P true a h = tt
unless_destructive-All P false a h = (h refl, tt)

propose-IsProposal :
    (t : String) (entities : List EntityRef) (found : Result CatalogError ActionSpec)
    → lookup_action t ≡ found
    → All (IsProposal entities) (propose t entities found)
unfolding propose
propose-IsProposal t entities (err e) h = tt
propose-IsProposal t entities (ok spec) h =
    unless_destructive-All (IsProposal entities) spec.destructive
      (aim (resolve_target t entities) (proposal t spec))
      (λ e.
        aim-IsProposal t spec entities (resolve_target t entities) h e
          (resolve_target-IsOneOf t entities))

propose_all-IsProposal :
    (ts : List String) (entities : List EntityRef)
    → All (IsProposal entities) (propose_all ts entities)
unfolding propose_all
propose_all-IsProposal [] entities = tt
propose_all-IsProposal (t ∷ ts) entities =
    All-append (IsProposal entities) (propose t entities (lookup_action t))
      (propose_all ts entities) (propose-IsProposal t entities (lookup_action t) refl)
      (propose_all-IsProposal ts entities)

-- Every action that an incident recommends is in the catalog, destroys nothing, has the catalog's way
-- back, and aims at the incident itself or at one of its entities, noting rightly whether that one is
-- a critical asset.
pub recommend_actions-IsProposal :
    (findings : List Finding) (entities : List EntityRef)
    → All (IsProposal entities) (recommend_actions findings entities)
unfolding recommend_actions
recommend_actions-IsProposal findings entities = search propose_all-IsProposal
