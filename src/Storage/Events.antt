-- ===== src/Storage/Events.antt =====
-- The retained events and the set of their ids.
use griefer_security_platfor.Prelude.{
  ℕ, zero, suc, ◌-◌, ◌≤◌, ◌<◌, String, ◌≡◌, refl, sym, ap, ◌∙◌, ◌≢◌, inl, inr, true, false, Option,
  none, some, List, [], ◌∷◌, ◌++◌, arith, ◌==◌, eq_refl, ltb, if◌then◌else◌, Bool-cases, length,
  take, drop, length-append, length-drop, take-append-drop, text_eq-false_of_ne,
  ne_of_text_eq-false,
}
use griefer_security_platfor.Prelude.Dict.{contains}
use griefer_security_platfor.Prelude.Texts.{
  discard_all, IsDistinct, contains-append, contains-discard_all, contains-rest_of_IsDistinct,
  IsDistinct-rest, IsDistinct-snoc,
}
use mathlib.Core.List.{map-append}
use griefer_security_platfor.Events.{SecurityEvent}
use griefer_security_platfor.Storage.{MemoryStore, ids_of, retain, save_event}

-- The id set holds exactly the ids of the retained events, no event is held twice.
pub record IsMirrored (s : MemoryStore) : Type 0 where
  pub mirror : (k : String) → contains s.event_ids k ≡ contains (ids_of s.events) k
  pub distinct : IsDistinct (ids_of s.events)

-- Besides that, at most `max_events` events are retained.
pub record EventsValid (s : MemoryStore) : Type 0 where
  pub mirrored : IsMirrored s
  pub bounded : length s.events ≤ s.max_events
  pub roomy : 0 < s.max_events

ids_of-take : (n : ℕ) (xs : List SecurityEvent) → ids_of (take n xs) ≡ take n (ids_of xs)
ids_of-take zero xs = refl
ids_of-take (suc n) [] = refl
ids_of-take (suc n) (x ∷ xs) = cc (ids_of-take n xs)

ids_of-drop : (n : ℕ) (xs : List SecurityEvent) → ids_of (drop n xs) ≡ drop n (ids_of xs)
ids_of-drop zero xs = refl
ids_of-drop (suc n) [] = refl
ids_of-drop (suc n) (x ∷ xs) = ids_of-drop n xs

-- The first `n` events go, and their ids with them.
module _ (s : MemoryStore) (h : IsMirrored s) (n : ℕ) where
  ids_split : ids_of (take n s.events) ++ ids_of (drop n s.events) ≡ ids_of s.events
  ids_split = rw (ids_of-take, ids_of-drop) (take-append-drop n (ids_of s.events))

  distinct_split : IsDistinct (ids_of (take n s.events) ++ ids_of (drop n s.events))
  distinct_split = rw ids_split h.distinct

  mirror_rest :
      (k : String)
      → contains (discard_all (ids_of (take n s.events)) s.event_ids) k
        ≡ contains (ids_of (drop n s.events)) k
  mirror_rest k =
      let gone = ids_of (take n s.events) in
      let rest = ids_of (drop n s.events) in
      cc (
        contains-discard_all gone s.event_ids k,
        h.mirror k,
        ids_split,
        contains-rest_of_IsDistinct gone rest k distinct_split,
      )

retain-EventsValid : (s : MemoryStore) → IsMirrored s → 0 < s.max_events → EventsValid (retain s)
retain-EventsValid s h room = elim (Bool-cases (ltb s.max_events (length s.events))) [
  | inl full ↦
      unfold retain in
      rw full (record {
        mirrored = record {
          mirror = mirror_rest s h (length s.events - s.max_events);
          distinct =
              IsDistinct-rest (ids_of (take (length s.events - s.max_events) s.events)) _
                (distinct_split s h (length s.events - s.max_events));
        };
        bounded = omega (arith, length-drop (length s.events - s.max_events) s.events);
        roomy = room;
      })
  | inr fits ↦
      unfold retain in rw fits (record { mirrored = h; bounded = ground arith; roomy = room })
]

ids_of-snoc :
    (xs : List SecurityEvent) (ev : SecurityEvent)
    → ids_of (xs ++ ev ∷ []) ≡ ids_of xs ++ ev.id ∷ []
ids_of-snoc xs ev = rw map-append

module _ (s : MemoryStore) (v : EventsValid s) where
  added-IsMirrored :
      (ev : SecurityEvent)
      → contains s.event_ids ev.id ≡ false
      → IsMirrored (record s { events = s.events ++ ev ∷ []; event_ids = ev.id ∷ s.event_ids })
  added-IsMirrored ev new = record {
    mirror = λ k. rw ids_of-snoc (
        unfold contains in
        ground (arith, contains-append (ids_of s.events) (ev.id ∷ []) k, v.mirrored.mirror k));
    distinct = rw ids_of-snoc (
        IsDistinct-snoc (ids_of s.events) ev.id v.mirrored.distinct (cc (v.mirrored.mirror ev.id)));
  }

  pub save_event-EventsValid : (o : Option SecurityEvent) → EventsValid (save_event o s).0
  save_event-EventsValid none = unfold save_event in v
  save_event-EventsValid (some ev) = elim (Bool-cases (ev.id == "")) [
    | inl e ↦ unfold save_event in rw e v
    | inr e ↦ elim (Bool-cases (contains s.event_ids ev.id)) [
      | inl old ↦ unfold save_event in rw (e, old) v
      | inr new ↦
          unfold save_event in rw (e, new) (retain-EventsValid _ (added-IsMirrored ev new) v.roomy)
    ]
  ]

-- The last `n` items.
abbrev pub last_of {ℓ} : {A : Type ℓ} → ℕ → List A → List A
last_of n xs = drop (length xs - n) xs

last_of_all {ℓ} : {A : Type ℓ} (n : ℕ) (xs : List A) → length xs ≤ n → last_of n xs ≡ xs
last_of_all n xs h = let z : length xs - n ≡ 0 = omega arith in rw z

drop-snoc {ℓ} :
    {A : Type ℓ} (n : ℕ) (xs : List A) (x : A)
    → n ≤ length xs
    → drop n (xs ++ x ∷ []) ≡ drop n xs ++ x ∷ []
drop-snoc zero xs x h = refl
drop-snoc (suc n) [] x h = elim h [ ]
drop-snoc (suc n) (y ∷ xs) x h = drop-snoc n xs x (omega arith)

retain-events : (s : MemoryStore) → (retain s).events ≡ last_of s.max_events s.events
retain-events s = elim (Bool-cases (ltb s.max_events (length s.events))) [
  | inl full ↦ unfold retain in rw full
  | inr fits ↦ unfold retain in rw fits (sym (last_of_all s.max_events s.events (ground arith)))
]

retain-frame :
    (s : MemoryStore)
    → retain s ≡ record s { events = (retain s).events; event_ids = (retain s).event_ids }
retain-frame s = elim (Bool-cases (ltb s.max_events (length s.events))) [
  | inl full ↦ unfold retain in rw full refl
  | inr fits ↦ unfold retain in rw fits refl
]

module _ (ev : SecurityEvent) (s : MemoryStore) (v : EventsValid s) (named : ev.id ≢ "") where
  save_known : contains s.event_ids ev.id ≡ true → save_event (some ev) s ≡ (s, none)
  unfolding save_event
  save_known old = rw (text_eq-false_of_ne _ _ named, old)

  save_new-events :
      contains s.event_ids ev.id ≡ false
      → ((save_event (some ev) s).1 ≡ none)
        × ((save_event (some ev) s).0.events ≡ last_of s.max_events (s.events ++ ev ∷ []))
  save_new-events new =
      unfold save_event in
      rw (text_eq-false_of_ne _ _ named, new)
        (
          refl,
          retain-events
              (record s { events = s.events ++ ev ∷ []; event_ids = ev.id ∷ s.event_ids }),
        )

  save_new-frame :
      contains s.event_ids ev.id ≡ false
      → (save_event (some ev) s).0 ≡ record s {
        events = last_of s.max_events (s.events ++ ev ∷ []);
        event_ids = (save_event (some ev) s).0.event_ids;
      }
  save_new-frame new =
      let grown : MemoryStore = record s {
        events = s.events ++ ev ∷ [];
        event_ids = ev.id ∷ s.event_ids;
      } in
      let ids = (retain grown).event_ids in
      unfold save_event in
      rw (text_eq-false_of_ne _ _ named, new)
        (retain-frame grown
          ∙ ap (λ es. record s { events = es; event_ids = ids }) (retain-events grown))

  save_event-events :
      ((save_event (some ev) s).1 ≡ none)
      × ((save_event (some ev) s).0.events ≡ (
          if contains (ids_of s.events) ev.id
          then s.events
          else last_of s.max_events (s.events ++ ev ∷ [])))
  save_event-events = elim (Bool-cases (contains s.event_ids ev.id)) [
    | inl old ↦ rw (save_known old, ← v.mirrored.mirror ev.id, old) (refl, refl)
    | inr new ↦ rw (← v.mirrored.mirror ev.id, new) (save_new-events new)
  ]

  -- Saving an event with an id into a store that holds no event twice, whose set of ids has just the
  -- ids of its events, and whose bound is positive and not exceeded: where the id is retained, the
  -- store is unchanged. Any other event becomes the newest, of which only the last `max_events` are
  -- retained, and nothing changes in the store but the events and the set of their ids. Neither is an
  -- error.
  pub save_event-retains :
      let after = (save_event (some ev) s).0 in
      ((save_event (some ev) s).1 ≡ none)
      × (after ≡ (
          if contains (ids_of s.events) ev.id then s else record s {
            events = last_of s.max_events (s.events ++ ev ∷ []);
            event_ids = after.event_ids;
          }))
  save_event-retains = elim (Bool-cases (contains s.event_ids ev.id)) [
    | inl old ↦ rw (save_known old, ← v.mirrored.mirror ev.id, old) (refl, refl)
    | inr new ↦
        let (fine, kept) = save_new-events new in
        rw (← v.mirrored.mirror ev.id, new) (fine, save_new-frame new)
  ]

  newest_is_retained : contains (ids_of (last_of s.max_events (s.events ++ ev ∷ []))) ev.id ≡ true
  newest_is_retained =
      let small : length (s.events ++ ev ∷ []) - s.max_events ≤ length s.events =
        omega (arith, length-append s.events (ev ∷ []), v.roomy) in
      rw (drop-snoc (length (s.events ++ ev ∷ []) - s.max_events) s.events ev small) (
        rw ids_of-snoc (
          unfold contains in
          ground (
            arith,
            contains-append (ids_of (drop (length (s.events ++ ev ∷ []) - s.max_events) s.events))
                (ev.id ∷ []) ev.id,
            eq_refl ev.id,
          )))

  saved_is_known : contains (save_event (some ev) s).0.event_ids ev.id ≡ true
  saved_is_known = elim (Bool-cases (contains s.event_ids ev.id)) [
    | inl old ↦ rw (save_known old) old
    | inr new ↦
        rw ((save_event-EventsValid s v (some ev)).mirrored.mirror ev.id)
          (rw ((save_new-events new).1) newest_is_retained)
  ]

-- Saving an event a second time changes nothing, be it accepted or refused: a producer's retry
-- stores no duplicate.
pub save_event_idem :
    (ev : SecurityEvent) (s : MemoryStore)
    → EventsValid s
    → save_event (some ev) (save_event (some ev) s).0 ≡ save_event (some ev) s
save_event_idem ev s v = elim (Bool-cases (ev.id == "")) [
  | inl e ↦ unfold save_event in rw e
  | inr e ↦
      let named = ne_of_text_eq-false _ _ e in
      let done = (save_event-events ev s v named).0 in
      save_known ev (save_event (some ev) s).0 (save_event-EventsValid s v (some ev)) named
        (saved_is_known ev s v named)
      ∙ λ i. ((save_event (some ev) s).0, sym done i)
]
