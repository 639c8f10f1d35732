-- ===== src/Graph/Reach/Trace.antt =====
-- What the walk of EstimateBlastRadius has found and what it has still queued, as names with their
-- hops, against the graph's distances.
use griefer_security_platfor.Prelude.{
  ℕ, suc, ◌≤◌, String, ◌≡◌, refl, sym, ◌≢◌, ◌⊎◌, inl, inr, true, false, List, [], ◌∷◌, ◌++◌, arith,
  ◌==◌, eq_iff, Bool-cases, All, Any,
}
use griefer_security_platfor.Prelude.{
  All-append, All-snoc, All-map, All-map2, Any-left, Any-right, Any-drop, All-drop,
}
use mathlib.Core.Path.{subst}
use griefer_security_platfor.Prelude.Dict.{contains}
use griefer_security_platfor.Graph.Store.{Graph, EdgeKey, Bucket, bucket_of, entity}
use griefer_security_platfor.Prelude.Sort.{sort_by-All, sort_by-Any}
use griefer_security_platfor.Graph.Reach.{bucket_steps, step_before, neighbour_steps, is_present}

abbrev pub IsPresent : Graph → String → Type 0
IsPresent g id = is_present (entity id g) ≡ true

abbrev HasPeer : String → Bucket → Type 0
HasPeer b m = Any (λ e. e.0.peer ≡ b) m

-- `b` is joined to `a` by an edge, in whichever direction.
abbrev pub IsPeer : Graph → String → String → Type 0
IsPeer g a b = HasPeer b (bucket_of a g.out) ⊎ HasPeer b (bucket_of a g.into)

bucket_steps-All :
    (P : EdgeKey → Type 0) (m : Bucket)
    → ((k : EdgeKey) → HasPeer k.peer m → P k)
    → All P (bucket_steps m)
unfolding bucket_steps
bucket_steps-All P [] f = tt
bucket_steps-All P ((k, ref) ∷ m) f = (f k (inl refl), bucket_steps-All P m (λ j h. f j (inr h)))

-- Every step leads to a peer.
pub neighbour_steps-IsPeer :
    (g : Graph) (a : String) → All (λ k. IsPeer g a k.peer) (neighbour_steps a g)
neighbour_steps-IsPeer g a =
    let P : EdgeKey → Type 0 = λ k. IsPeer g a k.peer in
    let outward = bucket_of a g.out in
    let inward = bucket_of a g.into in
    unfold neighbour_steps in
    sort_by-All step_before P (bucket_steps outward ++ bucket_steps inward) (
      All-append P (bucket_steps outward) (bucket_steps inward)
        (bucket_steps-All P outward (λ k h. inl h)) (bucket_steps-All P inward (λ k h. inr h)))

bucket_steps-Any : (b : String) (m : Bucket) → HasPeer b m → Any (λ k. k.peer ≡ b) (bucket_steps m)
unfolding bucket_steps
bucket_steps-Any b [] h = h
bucket_steps-Any b ((k, ref) ∷ m) (inl p) = inl p
bucket_steps-Any b ((k, ref) ∷ m) (inr h) = inr (bucket_steps-Any b m h)

-- To every peer there is a step.
pub IsPeer-neighbour_steps :
    (g : Graph) (a b : String) → IsPeer g a b → Any (λ k. k.peer ≡ b) (neighbour_steps a g)
IsPeer-neighbour_steps g a b h =
    let P : EdgeKey → Type 0 = λ k. k.peer ≡ b in
    let outward = bucket_steps (bucket_of a g.out) in
    let inward = bucket_steps (bucket_of a g.into) in
    unfold neighbour_steps in
    sort_by-Any step_before P (outward ++ inward) (elim h [
      | inl p ↦ Any-left P outward inward (bucket_steps-Any b (bucket_of a g.out) p)
      | inr p ↦ Any-right P outward inward (bucket_steps-Any b (bucket_of a g.into) p)
    ])

-- An entity that can be reached from a seed over a number of edges, by way of entities only.
pub data Reaches (g : Graph) (seeds : List String) : ℕ → String → Type 0 where
  at_seed : {id : String} → contains seeds id ≡ true → IsPresent g id → Reaches g seeds 0 id
  over_edge :
      {n : ℕ} {a b : String}
      → Reaches g seeds n a
      → IsPeer g a b
      → IsPresent g b
      → Reaches g seeds (suc n) b

abbrev pub Entry : Type 0
Entry = String × ℕ

-- No name twice.
abbrev pub IsOnce : List Entry → Type 0
IsOnce [] = Unit
IsOnce (e ∷ es) = All (λ f. f.0 ≢ e.0) es × IsOnce es

abbrev pub HasWithin : String → ℕ → List Entry → Type 0
HasWithin b n es = Any (λ e. (e.0 ≡ b) × (e.1 ≤ n)) es

IsOnce-drop :
    (xs : List Entry) (x : Entry) (ys : List Entry) → IsOnce (xs ++ x ∷ ys) → IsOnce (xs ++ ys)
IsOnce-drop [] x ys h = h.1
IsOnce-drop (z ∷ xs) x ys h = (All-drop (λ f. f.0 ≢ z.0) xs x ys h.0, IsOnce-drop xs x ys h.1)

IsOnce-snoc :
    (es : List Entry) (x : Entry) → IsOnce es → All (λ e. e.0 ≢ x.0) es → IsOnce (es ++ x ∷ [])
IsOnce-snoc [] x h k = (tt, tt)
IsOnce-snoc (e ∷ es) x h k =
    (All-snoc (λ f. f.0 ≢ e.0) es x h.0 (λ q. k.0 (sym q)), IsOnce-snoc es x h.1 k.1)

not_among : (a : String) (n : ℕ) (es : List Entry) → All (λ e. e.0 ≢ a) es → HasWithin a n es → ⊥
not_among a n [] h has = has
not_among a n (e ∷ es) h (inl (same, le)) = h.0 same
not_among a n (e ∷ es) h (inr later) = not_among a n es h.1 later

-- Where no name stands twice, a name's hops are the fewest that it has.
pub fewest_of_IsOnce :
    (es : List Entry) → IsOnce es → All (λ e. (n : ℕ) → HasWithin e.0 n es → e.1 ≤ n) es
fewest_of_IsOnce [] h = tt
fewest_of_IsOnce (x ∷ xs) h = (
  λ n has. elim has [ inl (same, le) ↦ le | inr later ↦ absurd (not_among x.0 n xs h.0 later) ],
  All-map2
      (λ e other ih n has. elim has [
        | inl (same, le) ↦ absurd (other (sym same))
        | inr later ↦ ih n later
      ])
      xs h.0 (fewest_of_IsOnce xs h.1),
)

pub contains-cons :
    (b : String) (visited : List String) (c : String)
    → contains visited c ≡ true
    → contains (b ∷ visited) c ≡ true
unfolding contains
contains-cons b visited c m = ground (arith, m)

module _ (g : Graph) (seeds : List String) (limit : ℕ) where
  abbrev pub IsWalked : Entry → Type 0
  IsWalked e = (IsPresent g e.0 → Reaches g seeds e.1 e.0) × (e.1 ≤ limit)

  -- The names that are visited, and the entries found and queued.
  pub record Tracks (visited : List String) (es : List Entry) : Type 0 where
    pub seen : (id : String) → IsPresent g id → contains visited id ≡ true → Any (λ e. e.0 ≡ id) es
    pub known : All (λ e. contains visited e.0 ≡ true) es
    pub once : IsOnce es
    pub walked : All IsWalked es

  pub Tracks-push :
      (visited : List String) (es : List Entry) (b : String) (n : ℕ)
      → contains visited b ≡ false
      → IsWalked (b, n)
      → Tracks visited es
      → Tracks (b ∷ visited) (es ++ (b, n) ∷ [])
  Tracks-push visited es b n new walked t = record {
    seen = λ id present h. elim (Bool-cases (b == id)) [
      | inl e ↦ Any-right (λ x. x.0 ≡ id) es ((b, n) ∷ []) (inl ((eq_iff b id).0 e))
      | inr e ↦
          let before : contains visited id ≡ true = unfold contains in rw e at h in
          Any-left (λ x. x.0 ≡ id) es ((b, n) ∷ []) (t.seen id present before)
    ];
    known =
        All-snoc (λ e. contains (b ∷ visited) e.0 ≡ true) es (b, n)
          (All-map (λ e m. contains-cons b visited e.0 m) es t.known)
          (unfold contains in rw ((eq_iff b b).1 refl) refl);
    once = IsOnce-snoc es (b, n) t.once (All-map (λ e m q. cc) es t.known);
    walked = All-snoc IsWalked es (b, n) t.walked walked;
  }

  -- A queued name that is no entity is dropped.
  pub Tracks-drop :
      (visited : List String) (xs : List Entry) (x : Entry) (ys : List Entry)
      → (IsPresent g x.0 → ⊥)
      → Tracks visited (xs ++ x ∷ ys)
      → Tracks visited (xs ++ ys)
  Tracks-drop visited xs x ys absent t = record {
    seen = λ id present h.
        Any-drop (λ e. e.0 ≡ id) xs x ys (λ q. absent (subst (IsPresent g) (sym q) present))
          (t.seen id present h);
    known = All-drop (λ e. contains visited e.0 ≡ true) xs x ys t.known;
    once = IsOnce-drop xs x ys t.once;
    walked = All-drop IsWalked xs x ys t.walked;
  }
