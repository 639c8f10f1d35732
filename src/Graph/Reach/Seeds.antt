-- ===== src/Graph/Reach/Seeds.antt =====
-- The start of EstimateBlastRadius: the seeds, each once, in the order of their names.
use griefer_security_platfor.Prelude.{
  ℕ, ◌≤◌, String, ◌≡◌, refl, sym, ◌≢◌, inl, inr, Bool, true, false, List, [], ◌∷◌, ◌++◌, arith,
  ◌==◌, eq_iff, text_lt, Bool-cases, All, Any,
}
use mathlib.Core.Path.{subst}
use griefer_security_platfor.Prelude.{
  All-snoc, All-map, All-map_list, Any-left, Any-right, Any-map, Any-map_list, Any-with_All,
}
use griefer_security_platfor.Prelude.Float.{FloatOps}
use griefer_security_platfor.Prelude.Dict.{contains}
use griefer_security_platfor.Prelude.Sort.{
  sort_by, insert_by, insert_by-All, sort_by-All, sort_by-Any,
}
use griefer_security_platfor.Graph.Store.{Graph, entity}
use griefer_security_platfor.Graph.Reach.{Queued, is_present, mark_seed, mark_seeds, start}
use griefer_security_platfor.Graph.Reach.Trace.{
  IsPresent, Reaches, at_seed, Entry, IsOnce, IsWalked, contains-cons,
}
use griefer_security_platfor.Graph.Reach.Exact.{queued_entries, IsBreadthFirst, IsLevel-flat}

abbrev AreOnce : List Queued → Type 0
AreOnce [] = Unit
AreOnce (q ∷ qs) = All (λ r. r.id ≢ q.id) qs × AreOnce qs

AreOnce-snoc :
    (qs : List Queued) (x : Queued)
    → AreOnce qs
    → All (λ q. q.id ≢ x.id) qs
    → AreOnce (qs ++ x ∷ [])
AreOnce-snoc [] x h k = (tt, tt)
AreOnce-snoc (q ∷ qs) x h k =
    (All-snoc (λ r. r.id ≢ q.id) qs x h.0 (λ e. k.0 (sym e)), AreOnce-snoc qs x h.1 k.1)

module _ (less : Queued → Queued → Bool) where
  insert_by-AreOnce :
      (a : Queued) (xs : List Queued)
      → All (λ q. q.id ≢ a.id) xs
      → AreOnce xs
      → AreOnce (insert_by less a xs)
  unfolding insert_by
  insert_by-AreOnce a [] k h = (tt, tt)
  insert_by-AreOnce a (x ∷ xs) k h = elim (Bool-cases (less x a)) [
    | inl e ↦ rw e (
      insert_by-All less (λ q. q.id ≢ x.id) a xs (λ q. k.0 (sym q)) h.0,
      insert_by-AreOnce a xs k.1 h.1,
    )
    | inr e ↦ rw e (k, h)
  ]

  sort_by-AreOnce : (qs : List Queued) → AreOnce qs → AreOnce (sort_by less qs)
  unfolding sort_by
  sort_by-AreOnce [] h = tt
  sort_by-AreOnce (q ∷ qs) h =
      insert_by-AreOnce q (sort_by less qs) (sort_by-All less (λ r. r.id ≢ q.id) qs h.0)
        (sort_by-AreOnce qs h.1)

not_in_empty : (id : String) → contains [] id ≡ true → ⊥
unfolding contains
not_in_empty id h = cc

module _ (g : Graph) (seeds : List String) where
  -- A queued seed.
  abbrev IsSeed : Queued → Type 0
  IsSeed q = (q.hops ≡ 0) × IsPresent g q.id × (contains seeds q.id ≡ true)

  record Marked (marked : List String × List Queued) : Type 0 where
    pub seen : (id : String) → contains marked.0 id ≡ true → Any (λ q. q.id ≡ id) marked.1
    pub known : All (λ q. contains marked.0 q.id ≡ true) marked.1
    pub once : AreOnce marked.1
    pub are_seeds : All IsSeed marked.1

  new-Marked :
      (s : String) (visited : List String) (queue : List Queued)
      → IsPresent g s
      → contains seeds s ≡ true
      → contains visited s ≡ false
      → Marked (visited, queue)
      → Marked (s ∷ visited, queue ++ record { id = s; hops = 0; via = ""; from = "" } ∷ [])
  new-Marked s visited queue present seed new m =
      let q : Queued = record { id = s; hops = 0; via = ""; from = "" } in
      record {
        seen = λ id h. elim (Bool-cases (s == id)) [
          | inl e ↦ Any-right (λ x. x.id ≡ id) queue (q ∷ []) (inl ((eq_iff s id).0 e))
          | inr e ↦
              let before : contains visited id ≡ true = unfold contains in rw e at h in
              Any-left (λ x. x.id ≡ id) queue (q ∷ []) (m.seen id before)
        ];
        known =
            All-snoc (λ x. contains (s ∷ visited) x.id ≡ true) queue q
              (All-map (λ x h. contains-cons s visited x.id h) queue m.known)
              (unfold contains in rw ((eq_iff s s).1 refl) refl);
        once = AreOnce-snoc queue q m.once (All-map (λ x h e. cc) queue m.known);
        are_seeds = All-snoc IsSeed queue q m.are_seeds (refl, present, seed);
      }

  mark_seed-Marked :
      (s : String) (marked : List String × List Queued)
      → contains seeds s ≡ true
      → Marked marked
      → Marked (mark_seed g s marked)
  mark_seed-Marked s (visited, queue) seed m = elim (Bool-cases (is_present (entity s g))) [
    | inl e ↦ elim (Bool-cases (contains visited s)) [
      | inl old ↦ unfold mark_seed in rw (e, old) m
      | inr new ↦ unfold mark_seed in rw (e, new) (new-Marked s visited queue e seed new m)
    ]
    | inr e ↦ unfold mark_seed in rw e m
  ]

  mark_seed_keeps :
      (s : String) (marked : List String × List Queued) (c : String)
      → contains marked.0 c ≡ true
      → contains (mark_seed g s marked).0 c ≡ true
  unfolding mark_seed contains
  mark_seed_keeps s (visited, queue) c h = ground (arith, h)

  mark_seed_visits :
      (s : String) (marked : List String × List Queued)
      → IsPresent g s
      → contains (mark_seed g s marked).0 s ≡ true
  unfolding mark_seed contains
  mark_seed_visits s (visited, queue) p = rw p (ground (arith, eq_iff s s))

  mark_seeds_keeps :
      (rest : List String) (marked : List String × List Queued) (c : String)
      → contains marked.0 c ≡ true
      → contains (mark_seeds g rest marked).0 c ≡ true
  unfolding mark_seeds
  mark_seeds_keeps [] marked c h = h
  mark_seeds_keeps (s ∷ rest) marked c h =
      mark_seeds_keeps rest (mark_seed g s marked) c (mark_seed_keeps s marked c h)

  mark_seeds_visits :
      (rest : List String) (marked : List String × List Queued) (c : String)
      → contains rest c ≡ true
      → IsPresent g c
      → contains (mark_seeds g rest marked).0 c ≡ true
  unfolding mark_seeds contains
  mark_seeds_visits [] marked c h p = cc
  mark_seeds_visits (s ∷ rest) marked c h p = elim (Bool-cases (s == c)) [
    | inl e ↦
        let same : s ≡ c = (eq_iff s c).0 e in
        mark_seeds_keeps rest (mark_seed g s marked) c (
          subst (λ x. contains (mark_seed g s marked).0 x ≡ true) same
            (mark_seed_visits s marked (subst (IsPresent g) (sym same) p)))
    | inr e ↦ mark_seeds_visits rest (mark_seed g s marked) c (rw e at h) p
  ]

  mark_seeds-Marked :
      (rest : List String) (marked : List String × List Queued)
      → ((c : String) → contains rest c ≡ true → contains seeds c ≡ true)
      → Marked marked
      → Marked (mark_seeds g rest marked)
  unfolding mark_seeds contains
  mark_seeds-Marked [] marked within m = m
  mark_seeds-Marked (s ∷ rest) marked within m =
      mark_seeds-Marked rest (mark_seed g s marked) (λ c h. within c (ground (arith, h)))
        (mark_seed-Marked s marked (within s (rw ((eq_iff s s).1 refl) refl)) m)

  every_seed-Marked : Marked (mark_seeds g seeds ([], []))
  every_seed-Marked =
      mark_seeds-Marked seeds ([], []) (λ c h. h)
        (record {
          seen = λ id h. absurd (not_in_empty id h);
          known = tt;
          once = tt;
          are_seeds = tt;
        })

queued_entries-IsOnce : (qs : List Queued) → AreOnce qs → IsOnce (queued_entries qs)
queued_entries-IsOnce [] h = tt
queued_entries-IsOnce (q ∷ qs) h =
    (All-map_list (λ f. f.0 ≢ q.id) (λ x. (x.id, x.hops)) qs h.0, queued_entries-IsOnce qs h.1)

-- The walk starts breadth first.
pub start-IsBreadthFirst :
    (fl : FloatOps) (g : Graph) (seeds : List String) (limit : ℕ)
    → IsBreadthFirst fl g seeds limit (start fl g seeds)
start-IsBreadthFirst fl g seeds limit =
    let less : Queued → Queued → Bool = λ a b. text_lt a.id b.id in
    let m = every_seed-Marked g seeds in
    let marked = mark_seeds g seeds ([], []) in
    let queue = sort_by less marked.1 in
    let to_entry : Queued → Entry = λ q. (q.id, q.hops) in
    let seeded = sort_by-All less (IsSeed g seeds) marked.1 m.are_seeds in
    unfold start in
    record {
      level = 0;
      at_level = record {
        found = tt;
        queued = IsLevel-flat 0 queue (All-map (λ q s. s.0) queue seeded);
      };
      tracks = record {
        seen = λ id p h.
            Any-map_list (λ e. e.0 ≡ id) to_entry queue
              (sort_by-Any less (λ q. q.id ≡ id) marked.1 (m.seen id h));
        known =
            All-map_list (λ e. contains marked.0 e.0 ≡ true) to_entry queue
              (sort_by-All less (λ q. contains marked.0 q.id ≡ true) marked.1 m.known);
        once = queued_entries-IsOnce queue (sort_by-AreOnce less marked.1 m.once);
        walked = All-map_list (IsWalked g seeds limit) to_entry queue (
            All-map
              (λ q s. (
                λ p. subst (λ n. Reaches g seeds n q.id) (sym s.0) (at_seed s.2 p),
                omega (arith, s.0),
              ))
              queue seeded);
      };
      present = tt;
      closed = tt;
      seeded = λ id s p.
          Any-map_list (λ e. (e.0 ≡ id) × (e.1 ≤ 0)) to_entry queue
            (Any-map (λ q h. (h.0, omega (arith, h.1.0))) queue
              (Any-with_All (λ q. q.id ≡ id) (IsSeed g seeds) queue seeded
                (sort_by-Any less (λ q. q.id ≡ id) marked.1
                  (m.seen id (mark_seeds_visits g seeds seeds ([], []) id s p)))));
    }
