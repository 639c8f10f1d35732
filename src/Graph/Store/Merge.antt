-- ===== src/Graph/Store/Merge.antt =====
-- What an upsert does to the entities of the graph.
use griefer_security_platfor.Prelude.{
  ◌≤◌, String, ◌≡◌, sym, ◌∙◌, ◌≢◌, inl, inr, ◌⊎◌, refl, List, [], ◌∷◌, true, Option, none, some,
  arith, ◌==◌, eq_iff, ltb, Bool-cases, ltb→lt, ne_of_text_eq-false,
}
use griefer_security_platfor.Prelude.Dict.{lookup, insert, keys, contains, lookup-insert}
use griefer_security_platfor.Prelude.Text.{Unicode}
use griefer_security_platfor.Graph.{Entity, rank}
use griefer_security_platfor.Graph.Store.{
  Graph, merge_attributes, entity, upsert_entity, with_defaults, merged, merge_entity,
}

-- Nothing known of an entity is lost where one with the attributes `given` is merged into it: it keeps its identifier, its type
-- and its key, the criticality does not fall, a name stays a name, what was observed stays observed,
-- and the time span does not shrink. Every attribute stays, with its value unless `given` has one of
-- that name.
pub record Grows (given : List (String × String)) (before after : Entity) : Type 0 where
  pub same_id : after.id ≡ before.id
  pub same_kind : after.kind ≡ before.kind
  pub same_key : after.key ≡ before.key
  pub attributed :
      (k : String)
      → (lookup k after.attributes ≡ lookup k before.attributes)
        ⊎ ((contains (keys given) k ≡ true) × (lookup k after.attributes ≢ none))
  pub critical : rank before.criticality ≤ rank after.criticality
  pub named : before.name ≢ "" → after.name ≢ ""
  pub seen : before.observed ≡ true → after.observed ≡ true
  pub later : before.last_seen ≤ after.last_seen
  pub earlier :
      before.first_seen ≢ 0 → (after.first_seen ≢ 0) × (after.first_seen ≤ before.first_seen)

Grows-refl : (given : List (String × String)) (e : Entity) → Grows given e e
Grows-refl given e = record {
  same_id = refl;
  same_kind = refl;
  same_key = refl;
  attributed = λ k. inl refl;
  critical = omega arith;
  named = λ h. h;
  seen = λ h. h;
  later = omega arith;
  earlier = λ h. (h, omega arith);
}

-- What merging leaves under a name: what was there, or a value that was given.
lookup-merge_attributes :
    (k : String) (given existing : List (String × String))
    → (lookup k (merge_attributes given existing) ≡ lookup k existing)
      ⊎ ((contains (keys given) k ≡ true) × (lookup k (merge_attributes given existing) ≢ none))
unfolding merge_attributes
lookup-merge_attributes k [] existing = inl refl
lookup-merge_attributes k ((j, v) ∷ more) existing =
    let read = lookup-insert j k v existing in
    elim (lookup-merge_attributes k more (insert j v existing)) [
      | inr (listed, there) ↦ inr (unfold contains in ground (arith, listed), there)
      | inl same ↦ elim (Bool-cases (j == k)) [
        | inl e ↦ inr (unfold contains in rw e refl, λ n. cc (same, rw e at read, n))
        | inr e ↦ inl (same ∙ (rw e at read))
      ]
    ]

merge_entity-Grows : (e existing : Entity) → Grows e.attributes existing (merge_entity e existing)
merge_entity-Grows e existing =
    unfold merge_entity in
    record {
      same_id = refl;
      same_kind = refl;
      same_key = refl;
      attributed = λ k. lookup-merge_attributes k e.attributes existing.attributes;
      critical = elim (Bool-cases (ltb (rank existing.criticality) (rank e.criticality))) [
        | inl h ↦ rw h (omega (arith, ltb→lt _ _ h))
        | inr h ↦ rw h (omega arith)
      ];
      named = λ h. elim (Bool-cases (e.name == "")) [
        | inl q ↦ rw q h
        | inr q ↦ rw q (ne_of_text_eq-false _ _ q)
      ];
      seen = λ h. ground arith;
      later = ground arith;
      earlier = λ h. ground arith;
    }

merged-Grows :
    (e : Entity) (o : Option Entity) (before : Entity)
    → o ≡ some before
    → Grows e.attributes before (merged e o)
merged-Grows e none before h = cc
merged-Grows e (some x) before h =
    let q : x ≡ before = cc in rw (sym q) (unfold merged in merge_entity-Grows e x)

-- Whatever is upserted, every entity that was there is still there under its identifier, and nothing
-- known of it is lost: its id, type and key are the same, its criticality ranks at least as high, it
-- has a name if it had one, it is observed if it was, the span of the times it was seen at only
-- widens, and every attribute keeps its value unless the upserted entity has one of that name, which
-- still leaves it an attribute.
pub upsert_entity_monotone :
    (u : Unicode) (e : Entity) (g : Graph) (id : String) (before : Entity)
    → entity id g ≡ some before
    → (after : Entity) × (entity id (upsert_entity u e g) ≡ some after)
      × Grows e.attributes before after
upsert_entity_monotone u e g id before h =
    let d = with_defaults u e in
    let m = merged d (lookup d.id g.entities) in
    let found = lookup-insert d.id id m g.entities in
    elim (Bool-cases (d.id == id)) [
      | inl same ↦ (
        m,
        unfold entity upsert_entity in (rw same at found),
        unfold with_defaults in
            merged-Grows d (lookup d.id g.entities) before
              (rw ((eq_iff d.id id).0 same) (unfold entity in h)),
      )
      | inr other ↦ (
        before,
        unfold entity upsert_entity in ((rw other at found) ∙ (unfold entity in h)),
        Grows-refl e.attributes before,
      )
    ]
