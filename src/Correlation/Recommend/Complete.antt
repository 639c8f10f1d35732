-- ===== src/Correlation/Recommend/Complete.antt =====
-- An incident recommends what its findings call for.
use griefer_security_platfor.Prelude.{
  String, ◌≡◌, refl, sym, ◌∙◌, inl, inr, Bool, true, false, not, ◌||◌, List, [], ◌∷◌, map, arith,
  ◌==◌, eq_iff, if◌then◌else◌, text_lt, Bool-cases, Option-cases, All,
}
use mathlib.Core.Path.{subst}
use mathlib.Core.List.{map-append}
use mathlib.Core.List.Perm
use griefer_security_platfor.Prelude.Dict.{contains, contains-Mem, Mem-contains, lookup, lookup-All}
use griefer_security_platfor.Prelude.Texts.{contains-append}
use griefer_security_platfor.Prelude.Result.{Result, ok, err}
use griefer_security_platfor.Prelude.Sort.{sort_by, sort_by-perm}
use griefer_security_platfor.Incidents.{Finding, EntityRef, RecommendedAction}
use griefer_security_platfor.Incidents.Catalog.{
  ActionSpec, CatalogError, lookup_action, lookup_action-IsSound,
}
use griefer_security_platfor.Correlation.Recommend.{
  category_actions, want, want_all, called_for, want_for_findings, wanted_types, has_endpoint,
  resolve_target, proposal, aim, unless_destructive, propose, propose_all, recommend_actions,
}
use griefer_security_platfor.Prelude.{All-map, All-map2}
use griefer_security_platfor.Correlation.Recommend.Safe.{aim_kept}

-- An action that the catalog has, and that destroys nothing.
is_offered : Result CatalogError ActionSpec → Bool
is_offered (err e) = false
is_offered (ok spec) = not spec.destructive

abbrev pub types_of : List RecommendedAction → List String
types_of actions = map (λ a. a.action_type) actions

unless_destructive-contains :
    (b : Bool) (a : RecommendedAction)
    → not b ≡ true
    → contains (types_of (unless_destructive b a)) a.action_type ≡ true
unfolding unless_destructive contains
unless_destructive-contains true a h = cc
unless_destructive-contains false a h = rw ((eq_iff a.action_type a.action_type).1 refl) refl

propose-contains :
    (t : String) (entities : List EntityRef) (found : Result CatalogError ActionSpec)
    → lookup_action t ≡ found
    → is_offered found ≡ true
    → contains (types_of (propose t entities found)) t ≡ true
unfolding propose is_offered
propose-contains t entities (err e) h offered = cc
propose-contains t entities (ok spec) h offered =
    let named : (proposal t spec).action_type ≡ t =
      unfold proposal in (lookup_action-IsSound t spec h).0 in
    let a = aim (resolve_target t entities) (proposal t spec) in
    let kept = (aim_kept (resolve_target t entities) (proposal t spec)).0 in
    subst (λ k. contains (types_of (unless_destructive spec.destructive a)) k ≡ true) (kept ∙ named)
      (unless_destructive-contains spec.destructive a offered)

or_left : {a : Bool} (b : Bool) → a ≡ true → (a || b) ≡ true
or_left b h = rw h refl

or_right : (a : Bool) {b : Bool} → b ≡ true → (a || b) ≡ true
or_right true h = refl
or_right false h = h

propose_all-contains :
    (ts : List String) (entities : List EntityRef) (t : String)
    → is_offered (lookup_action t) ≡ true
    → contains ts t ≡ true
    → contains (types_of (propose_all ts entities)) t ≡ true
unfolding propose_all contains
propose_all-contains [] entities t offered h = cc
propose_all-contains (x ∷ ts) entities t offered h =
    let here = propose x entities (lookup_action x) in
    let rest = propose_all ts entities in
    rw
      (map-append (λ a. a.action_type) here rest, contains-append (types_of here) (types_of rest) t)
      (elim (Bool-cases (x == t)) [
        | inl e ↦ or_left (contains (types_of rest) t) (
            subst (λ k. contains (types_of (propose k entities (lookup_action k))) t ≡ true)
              (sym ((eq_iff x t).0 e)) (propose-contains t entities (lookup_action t) refl offered))
        | inr e ↦
            or_right (contains (types_of here) t)
              (propose_all-contains ts entities t offered (rw e at h))
      ])

abbrev pub IsIn : List String → String → Type 0
IsIn xs c = contains xs c ≡ true

want-contains :
    (t : String) (wanted : List String) (c : String)
    → contains (want t wanted) c ≡ (contains wanted c || t == c)
unfolding want
want-contains t wanted c = elim (Bool-cases (contains wanted t)) [
  | inl e ↦ rw e (ground (arith, eq_iff t c))
  | inr e ↦ rw e (unfold contains in ground arith)
]

abbrev IsWithin : List String → List String → Type 0
IsWithin xs ys = (c : String) → contains xs c ≡ true → contains ys c ≡ true

want-IsWithin : (t : String) (wanted : List String) → IsWithin wanted (want t wanted)
want-IsWithin t wanted c h = ground (arith, want-contains t wanted c)

want_all-IsWithin : (ts wanted : List String) → IsWithin wanted (want_all ts wanted)
unfolding want_all
want_all-IsWithin [] wanted c h = h
want_all-IsWithin (t ∷ ts) wanted c h =
    want_all-IsWithin ts (want t wanted) c (want-IsWithin t wanted c h)

want_all-wanted : (ts wanted : List String) → All (IsIn (want_all ts wanted)) ts
unfolding want_all
want_all-wanted [] wanted = tt
want_all-wanted (t ∷ ts) wanted = (
  want_all-IsWithin ts (want t wanted) t (ground (arith, want-contains t wanted t, eq_iff t t)),
  want_all-wanted ts (want t wanted),
)

want_for_findings-IsWithin :
    (fs : List Finding) (wanted : List String) → IsWithin wanted (want_for_findings fs wanted)
unfolding want_for_findings
want_for_findings-IsWithin [] wanted c h = h
want_for_findings-IsWithin (f ∷ fs) wanted c h =
    want_for_findings-IsWithin fs (want_all (called_for f) wanted) c
      (want_all-IsWithin (called_for f) wanted c h)

want_for_findings-wanted :
    (fs : List Finding) (wanted : List String)
    → All (λ f. All (IsIn (want_for_findings fs wanted)) (called_for f)) fs
unfolding want_for_findings
want_for_findings-wanted [] wanted = tt
want_for_findings-wanted (f ∷ fs) wanted = (
  All-map (want_for_findings-IsWithin fs (want_all (called_for f) wanted)) (called_for f)
      (want_all-wanted (called_for f) wanted),
  want_for_findings-wanted fs (want_all (called_for f) wanted),
)

endpoint-IsWithin :
    (b : Bool) (wanted : List String)
    → IsWithin wanted (if b then want "isolate_endpoint" wanted else wanted)
endpoint-IsWithin true wanted = want-IsWithin "isolate_endpoint" wanted
endpoint-IsWithin false wanted = λ c h. h

module _ (findings : List Finding) (entities : List EntityRef) where
  from_findings-IsWithin :
      IsWithin
        (want_for_findings findings ("preserve_evidence" ∷ []))
        (wanted_types findings entities)
  from_findings-IsWithin c h =
      unfold wanted_types in
      endpoint-IsWithin (has_endpoint entities)
        (want_for_findings findings ("preserve_evidence" ∷ [])) c h

  recommended_of_wanted :
      (t : String)
      → is_offered (lookup_action t) ≡ true
      → IsIn (want_for_findings findings ("preserve_evidence" ∷ [])) t
      → IsIn (types_of (recommend_actions findings entities)) t
  recommended_of_wanted t offered h =
      let types = wanted_types findings entities in
      let listed = contains-Mem types t (from_findings-IsWithin t h) in
      unfold recommend_actions in
      propose_all-contains (sort_by text_lt types) entities t offered (
        Mem-contains (sort_by text_lt types) t
          (Perm.subset (Perm.symm (sort_by-perm text_lt types)) t listed))

abbrev IsOffered : String → Type 0
IsOffered t = is_offered (lookup_action t) ≡ true

category_actions-IsOffered : All (λ e. All IsOffered e.1) category_actions
unfolding is_offered lookup_action
category_actions-IsOffered = search

called_for-IsOffered : (f : Finding) → All IsOffered (called_for f)
unfolding called_for
called_for-IsOffered f = elim (Option-cases (lookup f.category category_actions)) [
  | inl e ↦ rw e tt
  | inr (ts, e) ↦ rw e (
      lookup-All (λ k us. All IsOffered us) f.category category_actions category_actions-IsOffered
        ts e)
]

-- Every action that the category of a finding calls for is recommended, and preserving the evidence
-- is recommended whatever the findings are.
pub recommend_actions_lem :
    (findings : List Finding) (entities : List EntityRef)
    → All (λ f. All (IsIn (types_of (recommend_actions findings entities))) (called_for f)) findings
      × IsIn (types_of (recommend_actions findings entities)) "preserve_evidence"
recommend_actions_lem findings entities =
    let wanted = want_for_findings findings ("preserve_evidence" ∷ []) in
    (
      All-map
          (λ f.
            All-map2 (recommended_of_wanted findings entities) (called_for f)
              (called_for-IsOffered f))
          findings (want_for_findings-wanted findings ("preserve_evidence" ∷ [])),
      recommended_of_wanted findings entities "preserve_evidence"
          (unfold lookup_action in unfold is_offered in refl)
          (want_for_findings-IsWithin findings ("preserve_evidence" ∷ []) "preserve_evidence"
            (unfold contains in refl)),
    )
