-- ===== src/Graph/Store/Evidence.antt =====
-- What the graph's edges are like, whatever is projected into it.
use griefer_security_platfor.Prelude.{
  ℕ, zero, suc, ◌≤◌, ◌<◌, String, ◌≡◌, ◌≢◌, inl, inr, false, not, ◌&&◌, ◌||◌, Option, none, some,
  List, [], ◌∷◌, ◌++◌, arith, ◌==◌, eq_iff, ltb, Bool-cases, length, length-append, All, All-snoc,
}
use griefer_security_platfor.Prelude.Dict.{contains}
use griefer_security_platfor.Prelude.Text.{Unicode}
use griefer_security_platfor.Prelude.Texts.{IsDistinct, IsDistinct-snoc}
use griefer_security_platfor.Events.{Time}
use griefer_security_platfor.Graph.{Entity, Edge}
use griefer_security_platfor.Graph.Store.{
  Graph, upsert_entity, upsert_edge, upsert_found, add_edge, new_edge, observe, update_at,
  max_edge_evidence,
}

-- An edge joins two named, different entities, and has at most 50 events as evidence, each once.
pub record EdgeValid (e : Edge) : Type 0 where
  pub from_named : e.from ≢ ""
  pub to_named : e.to ≢ ""
  pub proper : e.from ≢ e.to
  pub bounded : length e.event_ids ≤ max_edge_evidence
  pub distinct : IsDistinct e.event_ids

observe_ids :
    (at : Time) (id : String) (e : Edge)
    → EdgeValid e
    → (length (observe at id e).event_ids ≤ max_edge_evidence)
      × IsDistinct (observe at id e).event_ids
observe_ids at id e v =
    elim (Bool-cases (
      not (id == "")
      && ltb (length e.event_ids) max_edge_evidence
      && not (contains e.event_ids id))) [
        | inl h ↦
            let room : length e.event_ids < max_edge_evidence = ground arith in
            let new : contains e.event_ids id ≡ false = ground arith in
            unfold observe in
            rw h (
              omega (arith, length-append e.event_ids (id ∷ []), room),
              IsDistinct-snoc e.event_ids id v.distinct new,
            )
        | inr h ↦ unfold observe in rw h (v.bounded, v.distinct)
      ]

observe-EdgeValid : (at : Time) (id : String) (e : Edge) → EdgeValid e → EdgeValid (observe at id e)
observe-EdgeValid at id e v =
    let ids = observe_ids at id e v in
    record {
      from_named = unfold observe in v.from_named;
      to_named = unfold observe in v.to_named;
      proper = unfold observe in v.proper;
      bounded = ids.0;
      distinct = ids.1;
    }

update_at-All {ℓ κ} :
    {A : Type ℓ} (P : A → Type κ) (f : A → A)
    → ((x : A) → P x → P (f x))
    → (n : ℕ) (xs : List A) → All P xs
    → All P (update_at n f xs)
unfolding update_at
update_at-All P f keep n [] h = h
update_at-All P f keep zero (x ∷ xs) h = (keep x h.0, h.1)
update_at-All P f keep (suc n) (x ∷ xs) h = (h.0, update_at-All P f keep n xs h.1)

abbrev pub EdgesValid : Graph → Type 0
EdgesValid g = All EdgeValid g.heap

upsert_found-EdgesValid :
    (from to rel : String) (at : Time) (id : String) (g : Graph) (o : Option ℕ)
    → from ≢ ""
    → to ≢ ""
    → from ≢ to
    → EdgesValid g
    → EdgesValid (upsert_found from to rel at id g o)
upsert_found-EdgesValid from to rel at id g (some ref) p q d v =
    unfold upsert_found in
    update_at-All EdgeValid (observe at id) (observe-EdgeValid at id) ref g.heap v
upsert_found-EdgesValid from to rel at id g none p q d v =
    let fresh : EdgeValid (new_edge from to rel at) =
      unfold new_edge in
      record { from_named = p; to_named = q; proper = d; bounded = omega arith; distinct = tt } in
    unfold upsert_found add_edge in
    update_at-All EdgeValid (observe at id) (observe-EdgeValid at id) (length g.heap)
      (g.heap ++ new_edge from to rel at ∷ [])
      (All-snoc EdgeValid g.heap (new_edge from to rel at) v fresh)

pub upsert_edge-EdgesValid :
    (from to rel : String) (at : Time) (id : String) (g : Graph)
    → EdgesValid g
    → EdgesValid (upsert_edge from to rel at id g)
upsert_edge-EdgesValid from to rel at id g v =
    elim (Bool-cases (from == "" || to == "" || from == to)) [
      | inl h ↦ unfold upsert_edge in rw h v
      | inr h ↦
          unfold upsert_edge in
          rw h (
            upsert_found-EdgesValid from to rel at id g _ (ground (arith, eq_iff from ""))
              (ground (arith, eq_iff to "")) (ground (arith, eq_iff from to)) v)
    ]

pub upsert_entity-EdgesValid :
    (u : Unicode) (e : Entity) (g : Graph) → EdgesValid g → EdgesValid (upsert_entity u e g)
upsert_entity-EdgesValid u e g v = unfold upsert_entity in v
