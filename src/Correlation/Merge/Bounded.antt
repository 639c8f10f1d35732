-- ===== src/Correlation/Merge/Bounded.antt =====
-- However often rules fire, an incident has one finding for each, and each stays bounded.
use griefer_security_platfor.Prelude.{
  ◌≤◌, String, ◌≡◌, refl, inl, inr, Bool, true, false, List, [], ◌∷◌, ◌++◌, map, arith, ◌==◌, leb,
  if◌then◌else◌, Bool-cases, length, length-append, All,
}
use mathlib.Core.List.{Nodup}
use griefer_security_platfor.Prelude.Dict.{contains}
use griefer_security_platfor.Prelude.Texts.{IsDistinct, IsDistinct-snoc, Nodup-snoc}
use griefer_security_platfor.Incidents.{Finding}
use griefer_security_platfor.Correlation.Merge.{
  max_finding_events, merge_event_ids, absorb, merge_finding, merge_findings,
}

-- A finding has at most 100 events, none of them twice.
abbrev pub IsBounded : Finding → Type 0
IsBounded f = (length f.event_ids ≤ max_finding_events) × IsDistinct f.event_ids

abbrev pub rule_ids : List Finding → List String
rule_ids findings = map (λ f. f.rule_id) findings

-- One finding for each rule, and every finding bounded.
pub record FindingsValid (findings : List Finding) : Type 0 where
  pub bounded : All IsBounded findings
  pub distinct : Nodup (rule_ids findings)

AreBounded : List String → Type 0
AreBounded ids = (length ids ≤ max_finding_events) × IsDistinct ids

merge_event_ids-AreBounded :
    (existing ids : List String) → AreBounded existing → AreBounded (merge_event_ids existing ids)
unfolding merge_event_ids AreBounded
merge_event_ids-AreBounded existing [] h = h
merge_event_ids-AreBounded existing (id ∷ ids) h =
    elim (Bool-cases (leb max_finding_events (length existing))) [
      | inl full ↦ rw full h
      | inr room ↦ elim (Bool-cases (contains existing id)) [
        | inl e ↦ rw (room, e) (merge_event_ids-AreBounded existing ids h)
        | inr e ↦
            rw (room, e)
              (merge_event_ids-AreBounded (existing ++ id ∷ []) ids (
                ground (arith, length-append existing (id ∷ []), room),
                IsDistinct-snoc existing id h.1 e,
              ))
      ]
    ]

absorb-IsBounded : (f existing : Finding) → IsBounded existing → IsBounded (absorb f existing)
absorb-IsBounded f existing h =
    unfold absorb in
    unfold AreBounded in merge_event_ids-AreBounded existing.event_ids f.event_ids h

merge_finding-IsBounded :
    (f : Finding) (findings : List Finding)
    → IsBounded f
    → All IsBounded findings
    → All IsBounded (merge_finding f findings)
unfolding merge_finding
merge_finding-IsBounded f [] b h = (b, tt)
merge_finding-IsBounded f (x ∷ xs) b h = elim (Bool-cases (x.rule_id == f.rule_id)) [
  | inl e ↦ rw e (absorb-IsBounded f x h.0, h.1)
  | inr e ↦ rw e (h.0, merge_finding-IsBounded f xs b h.1)
]

cons-if :
    (a : String) (b : Bool) (xs ys : List String)
    → (a ∷ (if b then xs else ys)) ≡ (if b then a ∷ xs else a ∷ ys)
cons-if a true xs ys = refl
cons-if a false xs ys = refl

absorb-rule_id : (f existing : Finding) → (absorb f existing).rule_id ≡ existing.rule_id
unfolding absorb
absorb-rule_id f existing = refl

rule_ids-merge_finding :
    (f : Finding) (findings : List Finding)
    → rule_ids (merge_finding f findings) ≡ (
        if contains (rule_ids findings) f.rule_id
        then rule_ids findings
        else rule_ids findings ++ f.rule_id ∷ [])
unfolding merge_finding contains
rule_ids-merge_finding f [] = refl
rule_ids-merge_finding f (x ∷ xs) = elim (Bool-cases (x.rule_id == f.rule_id)) [
  | inl e ↦ rw (e, absorb-rule_id f x) refl
  | inr e ↦
      rw (e, rule_ids-merge_finding f xs)
        (cons-if x.rule_id (contains (rule_ids xs) f.rule_id) (rule_ids xs)
          (rule_ids xs ++ f.rule_id ∷ []))
]

merge_finding-FindingsValid :
    (f : Finding) (findings : List Finding)
    → IsBounded f
    → FindingsValid findings
    → FindingsValid (merge_finding f findings)
merge_finding-FindingsValid f findings b h = record {
  bounded = merge_finding-IsBounded f findings b h.bounded;
  distinct =
      rw (rule_ids-merge_finding f findings)
        (elim (Bool-cases (contains (rule_ids findings) f.rule_id)) [
          | inl e ↦ rw e h.distinct
          | inr e ↦ rw e (Nodup-snoc (rule_ids findings) f.rule_id h.distinct e)
        ]);
}

pub merge_findings-FindingsValid :
    (fs findings : List Finding)
    → All IsBounded fs
    → FindingsValid findings
    → FindingsValid (merge_findings fs findings)
unfolding merge_findings
merge_findings-FindingsValid [] findings b h = h
merge_findings-FindingsValid (f ∷ fs) findings b h =
    merge_findings-FindingsValid fs (merge_finding f findings) b.1
      (merge_finding-FindingsValid f findings b.0 h)
