-- ===== src/Graph/Reach/Ends.antt =====
-- The walk of EstimateBlastRadius ends: its queue runs empty within the fuel that it gets.
use griefer_security_platfor.Prelude.{
  ℕ, zero, suc, ◌+◌, ◌≤◌, String, ◌≡◌, refl, ap, ◌⊎◌, inl, inr, true, false, Option, none, some,
  List, [], ◌∷◌, ◌++◌, arith, ◌==◌, eq_iff, leb, if◌then◌else◌, text_lt, Bool-cases, length,
  length-append, All,
}
use griefer_security_platfor.Prelude.{All-append}
use griefer_security_platfor.Prelude.Int.{ℤ}
use griefer_security_platfor.Prelude.Dict.{contains, lookup}
use griefer_security_platfor.Prelude.Float.{FloatOps}
use griefer_security_platfor.Prelude.Sort.{sort_by-All, length-sort_by}
use griefer_security_platfor.Prelude.Texts.{contains-append}
use griefer_security_platfor.Graph.{Entity}
use griefer_security_platfor.Graph.Store.{
  Graph, EdgeKey, Bucket, entity, bucket_of, bucket_or_empty,
}
use griefer_security_platfor.Graph.Reach.{
  Queued, Walk, bucket_steps, neighbour_steps, hop_limit, mark_seed, mark_seeds, start, note_entity,
  push_step, push_steps, visit, pop, walk, count_keys, enough_fuel, step_before,
}

-- The peers of all keys.
peers_of : Bucket → List String
peers_of [] = []
peers_of ((k, ref) ∷ b) = k.peer ∷ peers_of b

all_peers : List (String × Bucket) → List String
unfolding peers_of
all_peers [] = []
all_peers ((id, b) ∷ m) = peers_of b ++ all_peers m

length-peers_of : (b : Bucket) → length (peers_of b) ≡ length b
unfolding peers_of
length-peers_of [] = refl
length-peers_of ((k, ref) ∷ b) = ap suc (length-peers_of b)

length-all_peers : (m : List (String × Bucket)) → length (all_peers m) ≡ count_keys m
unfolding all_peers count_keys
length-all_peers [] = refl
length-all_peers ((id, b) ∷ m) =
    omega (arith, length-append (peers_of b) (all_peers m), length-peers_of b, length-all_peers m)

-- The number of the listed names that are not visited.
unseen : List String → List String → ℕ
unseen [] visited = 0
unseen (x ∷ xs) visited =
    let rest = unseen xs visited in if contains visited x then rest else suc rest

unseen-le : (xs visited : List String) → unseen xs visited ≤ length xs
unfolding unseen
unseen-le [] visited = omega arith
unseen-le (x ∷ xs) visited = ground (arith, unseen-le xs visited)

unseen-anti : (xs visited : List String) (a : String) → unseen xs (a ∷ visited) ≤ unseen xs visited
unfolding unseen contains
unseen-anti [] visited a = omega arith
unseen-anti (x ∷ xs) visited a = ground (arith, unseen-anti xs visited a)

-- Visiting a listed name that was not visited leaves fewer of them.
unseen-cons :
    (xs visited : List String) (a : String)
    → contains xs a ≡ true
    → contains visited a ≡ false
    → suc (unseen xs (a ∷ visited)) ≤ unseen xs visited
unfolding unseen contains
unseen-cons [] visited a h n = cc
unseen-cons (x ∷ xs) visited a h n = elim (Bool-cases (x == a)) [
  | inl e ↦
      let same : x ≡ a = (eq_iff x a).0 e in
      rw same (ground (arith, unseen-anti xs visited a, eq_iff a a, n))
  | inr e ↦
      let member : contains xs a ≡ true = rw e at h in
      ground (arith, unseen-cons xs visited a member n, eq_iff x a, eq_iff a x, e)
]

abbrev IsListed : List String → EdgeKey → Type 0
IsListed names k = contains names k.peer ≡ true

abbrev IsWithin : List String → List String → Type 0
IsWithin xs ys = (c : String) → contains xs c ≡ true → contains ys c ≡ true

bucket_steps-IsListed :
    (names : List String) (b : Bucket)
    → IsWithin (peers_of b) names
    → All (IsListed names) (bucket_steps b)
unfolding bucket_steps peers_of contains
bucket_steps-IsListed names [] h = tt
bucket_steps-IsListed names ((k, ref) ∷ b) h = (
  h k.peer (rw ((eq_iff k.peer k.peer).1 refl) refl),
  bucket_steps-IsListed names b (λ c m. h c (ground (arith, m))),
)

bucket_of-IsWithin :
    (id : String) (m : List (String × Bucket)) → IsWithin (peers_of (bucket_of id m)) (all_peers m)
unfolding bucket_of bucket_or_empty lookup all_peers
bucket_of-IsWithin id [] c h = h
bucket_of-IsWithin id ((j, b) ∷ m) c h = elim (Bool-cases (j == id)) [
  | inl e ↦
      let q : contains (peers_of b) c ≡ true = rw e at h in
      ground (arith, contains-append (peers_of b) (all_peers m) c, q)
  | inr e ↦
      let q = bucket_of-IsWithin id m c (rw e at h) in
      ground (arith, contains-append (peers_of b) (all_peers m) c, q)
]

nil_of_no_length {ℓ} : {A : Type ℓ} (xs : List A) → length xs ≡ 0 → xs ≡ []
nil_of_no_length [] h = refl
nil_of_no_length (x ∷ xs) h = absurd (omega (arith, h))

module _ (g : Graph) where
  abbrev names : List String
  names = all_peers g.out ++ all_peers g.into

  neighbour_steps-IsListed : (id : String) → All (IsListed names) (neighbour_steps id g)
  neighbour_steps-IsListed id =
      unfold neighbour_steps in
      sort_by-All step_before (IsListed names) _ (
        All-append (IsListed names) (bucket_steps (bucket_of id g.out))
          (bucket_steps (bucket_of id g.into))
          (bucket_steps-IsListed names (bucket_of id g.out) (λ c h. ground (
            arith,
            contains-append (all_peers g.out) (all_peers g.into) c,
            bucket_of-IsWithin id g.out c h,
          )))
          (bucket_steps-IsListed names (bucket_of id g.into) (λ c h. ground (
            arith,
            contains-append (all_peers g.out) (all_peers g.into) c,
            bucket_of-IsWithin id g.into c h,
          ))))

  -- What the walk has left to do: what is queued, and what may still be queued.
  abbrev to_do : Walk → ℕ
  to_do w = length w.queue + unseen names w.visited

  module _ (fl : FloatOps) where
    push_step-to_do :
        (cur : Queued) (k : EdgeKey) (w : Walk)
        → IsListed names k
        → to_do (push_step fl cur k w) ≤ to_do w
    push_step-to_do cur k w h = elim (Bool-cases (contains w.visited k.peer)) [
      | inl e ↦ unfold push_step in rw e (omega arith)
      | inr e ↦
          let less_unseen = unseen-cons names w.visited k.peer h e in
          unfold push_step in
          rw e (
            omega (
              arith,
              length-append w.queue (
                  record { id = k.peer; hops = suc cur.hops; via = k.relation; from = cur.id }
                  ∷ []),
              less_unseen,
            ))
    ]

    push_steps-to_do :
        (cur : Queued) (steps : List EdgeKey) (w : Walk)
        → All (IsListed names) steps
        → to_do (push_steps fl cur steps w) ≤ to_do w
    unfolding push_steps
    push_steps-to_do cur [] w h = omega arith
    push_steps-to_do cur (k ∷ steps) w h =
        omega (
          arith,
          push_steps-to_do cur steps (push_step fl cur k w) h.1,
          push_step-to_do cur k w h.0,
        )

    -- A round takes one entry off the queue, and adds none that was not to do.
    visit-to_do :
        (limit : ℕ) (cur : Queued) (rest : List Queued) (found : Option Entity) (w : Walk)
        → w.queue ≡ cur ∷ rest
        → suc (to_do (visit fl g limit cur rest found w)) ≤ to_do w
    unfolding visit
    visit-to_do limit cur rest none w h = rw h (omega arith)
    visit-to_do limit cur rest (some ent) w h = elim (Bool-cases (leb limit cur.hops)) [
      | inl e ↦ rw (h, e) (unfold note_entity in omega arith)
      | inr e ↦
          let pushed =
            push_steps-to_do cur (neighbour_steps cur.id g) (note_entity fl cur rest ent w)
              (neighbour_steps-IsListed cur.id) in
          rw (h, e) (unfold note_entity in omega (arith, pushed))
    ]

    abbrev IsNearEnd : ℕ → Walk → Type 0
    IsNearEnd n w = (w.queue ≡ []) ⊎ (to_do w ≤ n)

    pop-IsNearEnd :
        (limit n : ℕ) (queue : List Queued) (w : Walk)
        → w.queue ≡ queue
        → IsNearEnd (suc n) w
        → IsNearEnd n (pop fl g limit queue w)
    unfolding pop
    pop-IsNearEnd limit n [] w h k = inl h
    pop-IsNearEnd limit n (cur ∷ rest) w h (inl e) = cc (h, e)
    pop-IsNearEnd limit n (cur ∷ rest) w h (inr k) =
        inr (omega (arith, visit-to_do limit cur rest (entity cur.id g) w h))

    walk-queue : (limit n : ℕ) (w : Walk) → IsNearEnd n w → (walk fl g limit n w).queue ≡ []
    unfolding walk
    walk-queue limit zero w (inl e) = e
    walk-queue limit zero w (inr h) = nil_of_no_length w.queue (omega arith)
    walk-queue limit (suc n) w h =
        walk-queue limit n (pop fl g limit w.queue w) (pop-IsNearEnd limit n w.queue w refl h)

length-mark_seed :
    (g : Graph) (s : String) (marked : List String × List Queued)
    → length (mark_seed g s marked).1 ≤ suc (length marked.1)
unfolding mark_seed
length-mark_seed g s (visited, queue) =
    ground (arith, length-append queue (record { id = s; hops = 0; via = ""; from = "" } ∷ []))

length-mark_seeds :
    (g : Graph) (seeds : List String) (marked : List String × List Queued)
    → length (mark_seeds g seeds marked).1 ≤ length seeds + length marked.1
unfolding mark_seeds
length-mark_seeds g [] marked = omega arith
length-mark_seeds g (s ∷ seeds) marked =
    omega (arith, length-mark_seeds g seeds (mark_seed g s marked), length-mark_seed g s marked)

-- The walk of EstimateBlastRadius ends on every graph, from every list of seeds and with every limit
-- of hops: one round for each seed and each stored edge end is enough for the queue to run empty.
pub walk-queue_empty :
    (fl : FloatOps) (g : Graph) (seeds : List String) (max_hops : ℤ)
    → (walk fl g (hop_limit max_hops) (enough_fuel g seeds) (start fl g seeds)).queue ≡ []
walk-queue_empty fl g seeds max_hops =
    walk-queue g fl (hop_limit max_hops) (enough_fuel g seeds) (start fl g seeds) (
      inr (
        unfold start in
        unfold enough_fuel in
        omega (
          arith,
          length-sort_by (λ a b. text_lt a.id b.id) (mark_seeds g seeds ([], [])).1,
          length-mark_seeds g seeds ([], []),
          unseen-le (names g) (mark_seeds g seeds ([], [])).0,
          length-append (all_peers g.out) (all_peers g.into),
          length-all_peers g.out,
          length-all_peers g.into,
        )))
