-- ===== src/Graph/Reach/Listed.antt =====
-- A round of the walk goes on breadth first.
use griefer_security_platfor.Prelude.{
  ℕ, zero, suc, ◌≤◌, ◌<◌, String, ◌≡◌, refl, sym, ap, ◌∙◌, inl, inr, true, false, Option, none,
  some, List, [], ◌∷◌, ◌++◌, arith, leb, Bool-cases, leb→le, All,
}
use mathlib.Core.Path.{subst}
use mathlib.Core.List.{map-append, append_assoc}
use griefer_security_platfor.Prelude.{All-snoc, All-map, Any-All, All-at}
use griefer_security_platfor.Prelude.Float.{FloatOps}
use griefer_security_platfor.Graph.{Entity, ReachableEntity}
use griefer_security_platfor.Graph.Store.{Graph, entity}
use griefer_security_platfor.Graph.Reach.{
  Queued, Walk, neighbour_steps, is_present, push_steps, visit, note_entity, pop, walk,
}
use griefer_security_platfor.Graph.Reach.Trace.{
  IsPresent, IsPeer, neighbour_steps-IsPeer, IsPeer-neighbour_steps, Reaches, HasWithin, Tracks,
  IsWalked,
}
use griefer_security_platfor.Graph.Reach.Exact.{
  entries, found_entries, queued_entries, IsAt, IsAt-head, push_steps-Pushed, IsBreadthFirst,
  absent-IsBreadthFirst, IsClosed,
}

-- Every entity stands under its own id.
abbrev pub IsKeyed : Graph → Type 0
IsKeyed g = (id : String) (ent : Entity) → entity id g ≡ some ent → ent.id ≡ id

found-IsPresent : (g : Graph) (id : String) (ent : Entity) → entity id g ≡ some ent → IsPresent g id
found-IsPresent g id ent h = unfold is_present in rw h refl

absent_of_none : (g : Graph) (id : String) → entity id g ≡ none → IsPresent g id → ⊥
absent_of_none g id h p = let q : false ≡ true = unfold is_present in rw h at p in cc

abbrev listed : Queued → Entity → ReachableEntity
listed cur ent = record {
  id = ent.id;
  kind = ent.kind;
  name = ent.name;
  criticality = ent.criticality;
  hops = cur.hops;
  via = cur.via;
  from = cur.from;
}

module _ (fl : FloatOps) (g : Graph) (seeds : List String) (limit : ℕ) (keyed : IsKeyed g) where
  abbrev pub IsGood : Walk → Type 0
  IsGood w = IsBreadthFirst fl g seeds limit w

  module _ (cur : Queued) (rest : List Queued) (ent : Entity) (w : Walk)
      (queue : w.queue ≡ cur ∷ rest) (found : entity cur.id g ≡ some ent) (i : IsGood w) where
    abbrev noted : Walk
    noted = note_entity fl cur rest ent w

    noted_reachable : noted.reachable ≡ w.reachable ++ listed cur ent ∷ []
    noted_reachable = unfold note_entity in refl

    noted_queue : noted.queue ≡ rest
    noted_queue = unfold note_entity in refl

    noted_visited : noted.visited ≡ w.visited
    noted_visited = unfold note_entity in refl

    -- The head of the queue has become the last that is found.
    noted_entries : entries w ≡ entries noted
    noted_entries =
        let old = found_entries w.reachable in
        let more = queued_entries rest in
        ap (λ q. old ++ queued_entries q) queue
        ∙ ap (λ x. old ++ (x, cur.hops) ∷ more) (sym (keyed cur.id ent found))
        ∙ sym (append_assoc old ((ent.id, cur.hops) ∷ []) more)
        ∙ ap (λ r. r ++ more)
            (sym (map-append (λ r. (r.id, r.hops)) w.reachable (listed cur ent ∷ [])))
        ∙ ap (λ r. found_entries r ++ more) (sym noted_reachable)
        ∙ ap (λ q. found_entries noted.reachable ++ queued_entries q) (sym noted_queue)

    noted-Tracks : Tracks g seeds limit noted.visited (entries noted)
    noted-Tracks =
        subst (λ v. Tracks g seeds limit v (entries noted)) (sym noted_visited)
          (subst (Tracks g seeds limit w.visited) noted_entries i.tracks)

    noted-IsAt : IsAt cur.hops noted
    noted-IsAt =
        let head = IsAt-head i.level w cur rest queue i.at_level in
        unfold note_entity in
        record {
          found =
              All-snoc (λ r. r.hops ≤ cur.hops) w.reachable (listed cur ent) head.0 (omega arith);
          queued = head.1;
        }

    cur_reached : Reaches g seeds cur.hops cur.id
    cur_reached =
        let es =
          subst (λ q. All (IsWalked g seeds limit) (found_entries w.reachable ++ queued_entries q))
            queue i.tracks.walked in
        (All-at (IsWalked g seeds limit) (found_entries w.reachable) (cur.id, cur.hops)
            (queued_entries rest) es).0
          (found-IsPresent g cur.id ent found)

    -- From the noted walk to one that keeps its entries and, below the limit, has the peers too.
    noted-IsGood :
        (w' : Walk)
        → w'.reachable ≡ noted.reachable
        → Tracks g seeds limit w'.visited (entries w')
        → IsAt cur.hops w'
        → ((b : String) (n : ℕ) → HasWithin b n (entries noted) → HasWithin b n (entries w'))
        → (cur.hops < limit
            → (b : String) → IsPeer g cur.id b
            → IsPresent g b
            → HasWithin b (suc cur.hops) (entries w'))
        → IsGood w'
    noted-IsGood w' same t a kept peers =
        let all_same = sym (same ∙ noted_reachable) in
        let old : (b : String) (n : ℕ) → HasWithin b n (entries w) → HasWithin b n (entries w') =
          λ b n h. kept b n (subst (HasWithin b n) noted_entries h) in
        record {
          level = cur.hops;
          at_level = a;
          tracks = t;
          present = subst (All (λ r. IsPresent g r.id)) all_same (
              All-snoc (λ r. IsPresent g r.id) w.reachable (listed cur ent) i.present
                (subst (IsPresent g) (sym (keyed cur.id ent found))
                  (found-IsPresent g cur.id ent found)));
          closed = subst (All (IsClosed fl g seeds limit (entries w'))) all_same (
              All-snoc (IsClosed fl g seeds limit (entries w')) w.reachable (listed cur ent)
                (All-map (λ r c below b peer p. old b (suc r.hops) (c below b peer p)) w.reachable
                  i.closed)
                (λ below b peer p.
                  peers below b (subst (λ x. IsPeer g x b) (keyed cur.id ent found) peer) p));
          seeded = λ id s p. old id 0 (i.seeded id s p);
        }

    present-IsGood : IsGood (visit fl g limit cur rest (some ent) w)
    present-IsGood = elim (Bool-cases (leb limit cur.hops)) [
      | inl e ↦
          unfold visit in
          rw e (
            noted-IsGood noted refl noted-Tracks noted-IsAt (λ b n h. h)
              (λ below b peer p. absurd (omega (arith, below, leb→le limit cur.hops e))))
      | inr e ↦
          let steps = neighbour_steps cur.id g in
          let below : cur.hops < limit = ground (arith, e) in
          let pushed =
            push_steps-Pushed fl g seeds limit cur steps noted below cur_reached
              (neighbour_steps-IsPeer g cur.id) noted-Tracks noted-IsAt in
          let es = entries (push_steps fl cur steps noted) in
          unfold visit in
          rw e (
            noted-IsGood (push_steps fl cur steps noted) pushed.same_found pushed.tracks
              pushed.at_level pushed.kept
              (λ _ b peer p.
                Any-All (λ k. k.peer ≡ b) (HasWithin b (suc cur.hops) es) steps
                  (All-map
                    (λ k reach q.
                      subst (λ x. HasWithin x (suc cur.hops) es) q
                        (reach (subst (IsPresent g) (sym q) p)))
                    steps pushed.reached)
                  (IsPeer-neighbour_steps g cur.id b peer)))
    ]

  visit-IsGood :
      (cur : Queued) (rest : List Queued) (w : Walk) (o : Option Entity)
      → w.queue ≡ cur ∷ rest
      → entity cur.id g ≡ o
      → IsGood w
      → IsGood (visit fl g limit cur rest o w)
  visit-IsGood cur rest w none queue found i =
      unfold visit in
      absent-IsBreadthFirst fl g seeds limit cur rest w queue (absent_of_none g cur.id found) i
  visit-IsGood cur rest w (some ent) queue found i = present-IsGood cur rest ent w queue found i

  pop-IsGood :
      (queue : List Queued) (w : Walk)
      → w.queue ≡ queue
      → IsGood w
      → IsGood (pop fl g limit queue w)
  unfolding pop
  pop-IsGood [] w h i = i
  pop-IsGood (cur ∷ rest) w h i = visit-IsGood cur rest w (entity cur.id g) h refl i

  pub walk-IsGood : (fuel : ℕ) (w : Walk) → IsGood w → IsGood (walk fl g limit fuel w)
  unfolding walk
  walk-IsGood zero w i = i
  walk-IsGood (suc fuel) w i =
      walk-IsGood fuel (pop fl g limit w.queue w) (pop-IsGood w.queue w refl i)
