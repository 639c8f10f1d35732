-- ===== src/Graph/Reach/Exact.antt =====
-- What the loop of EstimateBlastRadius keeps true: it goes breadth first.
use griefer_security_platfor.Prelude.{
  ℕ, suc, ◌≤◌, ◌<◌, String, ◌≡◌, refl, sym, ap, ◌∙◌, ◌⊎◌, inl, inr, true, false, List, [], ◌∷◌,
  ◌++◌, map, arith, Bool-cases, All,
}
use mathlib.Core.Path.{subst}
use mathlib.Core.List.{map-append, append_assoc}
use griefer_security_platfor.Prelude.{
  All-append, All-snoc, All-map, All-map_list, Any-left, Any-right, Any-drop, Any-with_All,
}
use griefer_security_platfor.Prelude.Float.{FloatOps}
use griefer_security_platfor.Prelude.Dict.{contains}
use griefer_security_platfor.Graph.{ReachableEntity}
use griefer_security_platfor.Graph.Store.{Graph, EdgeKey}
use griefer_security_platfor.Graph.Reach.{Queued, Walk, push_step, push_steps}
use griefer_security_platfor.Graph.Reach.Trace.{
  IsPresent, IsPeer, Reaches, over_edge, Entry, HasWithin, Tracks, Tracks-push, Tracks-drop,
}

abbrev pub found_entries : List ReachableEntity → List Entry
found_entries rs = map (λ r. (r.id, r.hops)) rs

abbrev pub queued_entries : List Queued → List Entry
queued_entries qs = map (λ q. (q.id, q.hops)) qs

abbrev pub entries : Walk → List Entry
entries w = found_entries w.reachable ++ queued_entries w.queue

-- The queue of a walk that has come to distance `h`: first what is as far, then what is one further.
abbrev pub IsLevel : ℕ → List Queued → Type 0
IsLevel h [] = Unit
IsLevel h (q ∷ qs) = ((q.hops ≡ h) × IsLevel h qs) ⊎ All (λ r. r.hops ≡ suc h) (q ∷ qs)

pub IsLevel-flat : (h : ℕ) (qs : List Queued) → All (λ r. r.hops ≡ h) qs → IsLevel h qs
IsLevel-flat h [] k = tt
IsLevel-flat h (q ∷ qs) k = inl (k.0, IsLevel-flat h qs k.1)

IsLevel-snoc :
    (h : ℕ) (qs : List Queued) (q : Queued)
    → q.hops ≡ suc h
    → IsLevel h qs
    → IsLevel h (qs ++ q ∷ [])
IsLevel-snoc h [] q e k = inr (e, tt)
IsLevel-snoc h (x ∷ qs) q e (inl (here, later)) = inl (here, IsLevel-snoc h qs q e later)
IsLevel-snoc h (x ∷ qs) q e (inr far) = inr (All-snoc (λ r. r.hops ≡ suc h) (x ∷ qs) q far e)

IsLevel-le : (h : ℕ) (qs : List Queued) → IsLevel h qs → All (λ q. q.hops ≤ suc h) qs
IsLevel-le h [] k = tt
IsLevel-le h (q ∷ qs) (inl (here, later)) = (omega arith, IsLevel-le h qs later)
IsLevel-le h (q ∷ qs) (inr far) = All-map (λ r e. omega (arith, e)) (q ∷ qs) far

-- Everything found is at most as far as `h`, and the queue is on its level.
pub record IsAt (h : ℕ) (w : Walk) : Type 0 where
  pub found : All (λ r. r.hops ≤ h) w.reachable
  pub queued : IsLevel h w.queue

IsAt-le : (h : ℕ) (w : Walk) → IsAt h w → All (λ e. e.1 ≤ suc h) (entries w)
IsAt-le h w a =
    All-append (λ e. e.1 ≤ suc h) (found_entries w.reachable) (queued_entries w.queue)
      (All-map_list (λ e. e.1 ≤ suc h) (λ r. (r.id, r.hops)) w.reachable
        (All-map (λ r q. omega (arith, q)) w.reachable a.found))
      (All-map_list (λ e. e.1 ≤ suc h) (λ q. (q.id, q.hops)) w.queue
        (IsLevel-le h w.queue a.queued))

-- The head of the queue gives the level of the rest.
pub IsAt-head :
    (h : ℕ) (w : Walk) (cur : Queued) (rest : List Queued)
    → w.queue ≡ cur ∷ rest
    → IsAt h w
    → All (λ r. r.hops ≤ cur.hops) w.reachable × IsLevel cur.hops rest
IsAt-head h w cur rest e a = elim (subst (IsLevel h) e a.queued) [
  | inl (here, later) ↦ (rw here a.found, rw here later)
  | inr far ↦ (
    All-map (λ r q. omega (arith, q, far.0)) w.reachable a.found,
    IsLevel-flat cur.hops rest (All-map (λ r q. q ∙ sym far.0) rest far.1),
  )
]

module _ (fl : FloatOps) (g : Graph) (seeds : List String) (limit : ℕ) where
  -- What the loop over the peers does to a walk that notes `cur`.
  pub record Pushed (cur : Queued) (steps : List EdgeKey) (w w' : Walk) : Type 0 where
    pub same_found : w'.reachable ≡ w.reachable
    pub tracks : Tracks g seeds limit w'.visited (entries w')
    pub at_level : IsAt cur.hops w'
    pub kept : (b : String) (n : ℕ) → HasWithin b n (entries w) → HasWithin b n (entries w')
    pub reached : All (λ k. IsPresent g k.peer → HasWithin k.peer (suc cur.hops) (entries w')) steps

  entries-push :
      (w : Walk) (q : Queued)
      → found_entries w.reachable ++ queued_entries (w.queue ++ q ∷ [])
        ≡ entries w ++ (q.id, q.hops) ∷ []
  entries-push w q =
      ap (λ r. found_entries w.reachable ++ r) (map-append (λ x. (x.id, x.hops)) w.queue (q ∷ []))
      ∙ sym
          (append_assoc (found_entries w.reachable) (queued_entries w.queue) ((q.id, q.hops) ∷ []))

  abbrev queued_next : Queued → EdgeKey → Queued
  queued_next cur k = record { id = k.peer; hops = suc cur.hops; via = k.relation; from = cur.id }

  new-Pushed :
      (cur : Queued) (k : EdgeKey) (w : Walk)
      → cur.hops < limit
      → Reaches g seeds cur.hops cur.id
      → IsPeer g cur.id k.peer
      → Tracks g seeds limit w.visited (entries w)
      → IsAt cur.hops w
      → contains w.visited k.peer ≡ false
      → Pushed cur
          (k ∷ [])
          w
          (record w { visited = k.peer ∷ w.visited; queue = w.queue ++ queued_next cur k ∷ [] })
  new-Pushed cur k w below reached peer t a new =
      let b = k.peer in
      let n = suc cur.hops in
      let longer = sym (entries-push w (queued_next cur k)) in
      record {
        same_found = refl;
        tracks = subst (Tracks g seeds limit (b ∷ w.visited)) longer (
            Tracks-push g seeds limit w.visited (entries w) b n new
              (λ present. over_edge reached peer present, omega (arith, below)) t);
        at_level = record {
          found = a.found;
          queued = IsLevel-snoc cur.hops w.queue (queued_next cur k) refl a.queued;
        };
        kept = λ c m h.
            subst (HasWithin c m) longer
              (Any-left (λ e. (e.0 ≡ c) × (e.1 ≤ m)) (entries w) ((b, n) ∷ []) h);
        reached = (
          λ present. subst (HasWithin b n) longer (
              Any-right (λ e. (e.0 ≡ b) × (e.1 ≤ n)) (entries w) ((b, n) ∷ [])
                (inl (refl, omega arith))),
          tt,
        );
      }

  push_step-Pushed :
      (cur : Queued) (k : EdgeKey) (w : Walk)
      → cur.hops < limit
      → Reaches g seeds cur.hops cur.id
      → IsPeer g cur.id k.peer
      → Tracks g seeds limit w.visited (entries w)
      → IsAt cur.hops w
      → Pushed cur (k ∷ []) w (push_step fl cur k w)
  push_step-Pushed cur k w below reached peer t a = elim (Bool-cases (contains w.visited k.peer)) [
    | inl e ↦
        unfold push_step in
        rw e (record {
          same_found = refl;
          tracks = t;
          at_level = a;
          kept = λ b n h. h;
          reached = (
            λ present.
                Any-with_All (λ e. e.0 ≡ k.peer) (λ e. e.1 ≤ suc cur.hops) (entries w)
                  (IsAt-le cur.hops w a) (t.seen k.peer present e),
            tt,
          );
        })
    | inr e ↦ unfold push_step in rw e (new-Pushed cur k w below reached peer t a e)
  ]

  pub push_steps-Pushed :
      (cur : Queued) (steps : List EdgeKey) (w : Walk)
      → cur.hops < limit
      → Reaches g seeds cur.hops cur.id
      → All (λ k. IsPeer g cur.id k.peer) steps
      → Tracks g seeds limit w.visited (entries w)
      → IsAt cur.hops w
      → Pushed cur steps w (push_steps fl cur steps w)
  unfolding push_steps
  push_steps-Pushed cur [] w below reached peers t a = record {
    same_found = refl;
    tracks = t;
    at_level = a;
    kept = λ b n h. h;
    reached = tt;
  }
  push_steps-Pushed cur (k ∷ steps) w below reached peers t a =
      let one = push_step-Pushed cur k w below reached peers.0 t a in
      let w' = push_step fl cur k w in
      let more = push_steps-Pushed cur steps w' below reached peers.1 one.tracks one.at_level in
      record {
        same_found = more.same_found ∙ one.same_found;
        tracks = more.tracks;
        at_level = more.at_level;
        kept = λ b n h. more.kept b n (one.kept b n h);
        reached =
            (λ present. more.kept k.peer (suc cur.hops) (one.reached.0 present), more.reached);
      }

  -- Every peer of what was found nearer than the limit is found or queued, one edge further at most.
  abbrev pub IsClosed : List Entry → ReachableEntity → Type 0
  IsClosed es r =
      r.hops < limit → (b : String) → IsPeer g r.id b → IsPresent g b → HasWithin b (suc r.hops) es

  pub record IsBreadthFirst (w : Walk) : Type 0 where
    pub level : ℕ
    pub at_level : IsAt level w
    pub tracks : Tracks g seeds limit w.visited (entries w)
    pub present : All (λ r. IsPresent g r.id) w.reachable
    pub closed : All (IsClosed (entries w)) w.reachable
    pub seeded :
        (id : String) → contains seeds id ≡ true → IsPresent g id → HasWithin id 0 (entries w)

  -- A queued name that is no entity goes.
  pub absent-IsBreadthFirst :
      (cur : Queued) (rest : List Queued) (w : Walk)
      → w.queue ≡ cur ∷ rest
      → (IsPresent g cur.id → ⊥)
      → IsBreadthFirst w
      → IsBreadthFirst (record w { queue = rest })
  absent-IsBreadthFirst cur rest w h absent i =
      let found = found_entries w.reachable in
      let es = found ++ (cur.id, cur.hops) ∷ queued_entries rest in
      let same : entries w ≡ es = ap (λ q. found ++ queued_entries q) h in
      let head = IsAt-head i.level w cur rest h i.at_level in
      let kept : (b : String) (n : ℕ)
          → IsPresent g b
          → HasWithin b n (entries w)
          → HasWithin b n (found ++ queued_entries rest) =
        λ b n p has.
          Any-drop (λ e. (e.0 ≡ b) × (e.1 ≤ n)) found (cur.id, cur.hops) (queued_entries rest)
            (λ q. absent (subst (IsPresent g) (sym q.0) p)) (subst (HasWithin b n) same has) in
      record {
        level = cur.hops;
        at_level = record { found = head.0; queued = head.1 };
        tracks =
            Tracks-drop g seeds limit w.visited found (cur.id, cur.hops) (queued_entries rest)
              absent (subst (Tracks g seeds limit w.visited) same i.tracks);
        present = i.present;
        closed =
            All-map (λ r c below b peer p. kept b (suc r.hops) p (c below b peer p)) w.reachable
              i.closed;
        seeded = λ id s p. kept id 0 p (i.seeded id s p);
      }
