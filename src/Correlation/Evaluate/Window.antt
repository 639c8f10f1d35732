-- ===== src/Correlation/Evaluate/Window.antt =====
-- thresholdMet forgets hits, and still counts right.
use griefer_security_platfor.Prelude.{
  ℕ, suc, ◌-◌, ◌≤◌, String, ◌≡◌, refl, sym, ap, ◌∙◌, some, List, [], ◌∷◌, ◌++◌, arith, eq_iff, ltb,
  leb, if◌then◌else◌, length, All,
}
use Prim.Native.Nat.{min}
use Prim.Native.String.{◌++◌ as ◌++ₛ◌}
use griefer_security_platfor.Prelude.{All-snoc}
use griefer_security_platfor.Prelude.Dict.{lookup, insert, lookup-insert}
use griefer_security_platfor.Events.{Time}
use griefer_security_platfor.Correlation.Rules.{Threshold}
use griefer_security_platfor.Correlation.Evaluate.{
  since, last_hits, kept_hits, hits_or_none, threshold_met,
}
use griefer_security_platfor.Correlation.Evaluate.Hits.{
  IsChronological, since-IsChronological, snoc-IsChronological, since-snoc, since-since,
  last_hits-short, length-last_hits, since-last_hits, last_hits-snoc,
}

-- The hits in the order in which they came, from a list that has the latest first.
abbrev oldest_first : List Time → List Time
oldest_first [] = []
oldest_first (at ∷ before) = oldest_first before ++ at ∷ []

abbrev pub IsLatestFirst : List Time → Type 0
IsLatestFirst [] = Unit
IsLatestFirst (at ∷ before) = All (λ t. t ≤ at) before × IsLatestFirst before

oldest_first-All : (P : Time → Type 0) (ts : List Time) → All P ts → All P (oldest_first ts)
oldest_first-All P [] h = tt
oldest_first-All P (t ∷ ts) h = All-snoc P (oldest_first ts) t (oldest_first-All P ts h.1) h.0

oldest_first-IsChronological :
    (ts : List Time) → IsLatestFirst ts → IsChronological (oldest_first ts)
oldest_first-IsChronological [] h = tt
oldest_first-IsChronological (t ∷ ts) h =
    snoc-IsChronological (oldest_first ts) t (oldest_first-IsChronological ts h.1)
      (oldest_first-All (λ s. s ≤ t) ts h.0)

-- What is kept after the hits, the latest of which stands first.
kept_after : Threshold → List Time → List Time
kept_after t [] = []
kept_after t (at ∷ before) = kept_hits t at (kept_after t before)

kept_after_step :
    (t : Threshold) (at : Time) (before : List Time)
    → kept_hits t at (kept_after t before) ≡ kept_after t (at ∷ before)
unfolding kept_after
kept_after_step t at before = refl

abbrev cutoff_of : Threshold → List Time → Time
cutoff_of t [] = 0
cutoff_of t (at ∷ before) = at - t.window

cutoff_of-le :
    (t : Threshold) (at : Time) (before : List Time)
    → IsLatestFirst (at ∷ before)
    → cutoff_of t before ≤ at - t.window
cutoff_of-le t at [] h = omega arith
cutoff_of-le t at (b ∷ before) h = omega (arith, h.0.0)

kept_after_lem :
    (t : Threshold) (hits : List Time)
    → IsLatestFirst hits
    → kept_after t hits ≡ last_hits t.count (since (cutoff_of t hits) (oldest_first hits))
unfolding kept_after kept_hits
kept_after_lem t [] h = unfold since in sym (last_hits-short t.count [] (omega arith))
kept_after_lem t (at ∷ before) h =
    let n = t.count in
    let c = cutoff_of t before in
    let d = at - t.window in
    let past = oldest_first before in
    let inside : d ≤ at = omega arith in
    ap (last_hits n) (since-snoc d (kept_after t before) at inside)
    ∙ ap (λ r. last_hits n (since d r ++ at ∷ [])) (kept_after_lem t before h.1)
    ∙ ap (λ r. last_hits n (r ++ at ∷ []))
        (since-last_hits n d (since c past)
          (since-IsChronological c past (oldest_first-IsChronological before h.1)))
    ∙ last_hits-snoc n (since d (since c past)) at
    ∙ ap (λ r. last_hits n (r ++ at ∷ [])) (since-since c d past (cutoff_of-le t at before h))
    ∙ ap (last_hits n) (sym (since-snoc d past at inside))

-- How many hits lie at or after the cutoff.
abbrev pub count_since : Time → List Time → ℕ
count_since c [] = 0
count_since c (t ∷ ts) = let rest = count_since c ts in if ltb t c then rest else suc rest

-- The engine's hits after a rule was hit for a subject at the given times, the latest first.
unfoldable pub hits_after : String → String → Threshold → List Time → List (String × List Time)
unfolding threshold_met
hits_after subject rule_id t [] = []
hits_after subject rule_id t (at ∷ before) =
    (threshold_met subject rule_id t at (hits_after subject rule_id t before)).1

length-since_count : (c : Time) (ts : List Time) → length (since c ts) ≡ count_since c ts
unfolding since
length-since_count c [] = refl
length-since_count c (t ∷ ts) = ground (arith, length-since_count c ts)

count_since-snoc :
    (c : Time) (ts : List Time) (a : Time) → count_since c (ts ++ a ∷ []) ≡ count_since c (a ∷ ts)
count_since-snoc c [] a = refl
count_since-snoc c (t ∷ ts) a = ground (arith, count_since-snoc c ts a)

count_since-oldest_first :
    (c : Time) (ts : List Time) → count_since c (oldest_first ts) ≡ count_since c ts
count_since-oldest_first c [] = refl
count_since-oldest_first c (t ∷ ts) =
    count_since-snoc c (oldest_first ts) t ∙ ground (arith, count_since-oldest_first c ts)

some_hits : (kept : List Time) → hits_or_none (some kept) ≡ kept
unfolding hits_or_none
some_hits kept = refl

leb-min : (n m : ℕ) → leb n (min n m) ≡ leb n m
leb-min n m = ground arith

hits_after-kept_after :
    (subject rule_id : String) (t : Threshold) (hits : List Time)
    → hits_or_none (lookup (subject ++ₛ ("|" ++ₛ rule_id)) (hits_after subject rule_id t hits))
      ≡ kept_after t hits
unfolding hits_after kept_after threshold_met
hits_after-kept_after subject rule_id t [] = unfold lookup in unfold hits_or_none in refl
hits_after-kept_after subject rule_id t (at ∷ before) =
    let key = subject ++ₛ ("|" ++ₛ rule_id) in
    let all_hits = hits_after subject rule_id t before in
    let kept = kept_hits t at (hits_or_none (lookup key all_hits)) in
    let found : lookup key (insert key kept all_hits) ≡ some kept =
      lookup-insert key key kept all_hits ∙ rw ((eq_iff key key).1 refl) refl in
    ap hits_or_none found
    ∙ some_hits kept
    ∙ ap (kept_hits t at) (hits_after-kept_after subject rule_id t before)

-- When a rule with a threshold is hit at times that never go back, it is met by a hit exactly if its
-- count of hits, this one included, lies within its window before this hit, although thresholdMet
-- has forgotten all hits but the last few. The times are given with the latest first.
pub threshold_met-count_since :
    (subject rule_id : String) (t : Threshold) (at : Time) (before : List Time)
    → IsLatestFirst (at ∷ before)
    → (threshold_met subject rule_id t at (hits_after subject rule_id t before)).0
      ≡ leb t.count (count_since (at - t.window) (at ∷ before))
threshold_met-count_since subject rule_id t at before h =
    let n = t.count in
    let d = at - t.window in
    let hits = at ∷ before in
    let kept : kept_hits t at (kept_after t before) ≡ last_hits n (since d (oldest_first hits)) =
      kept_after_step t at before ∙ kept_after_lem t hits h in
    unfold threshold_met in
    ap (λ r. leb n (length (kept_hits t at r))) (hits_after-kept_after subject rule_id t before)
    ∙ ap (λ r. leb n (length r)) kept
    ∙ ap (leb n) (length-last_hits n (since d (oldest_first hits)))
    ∙ leb-min n (length (since d (oldest_first hits)))
    ∙ ap (leb n) (length-since_count d (oldest_first hits) ∙ count_since-oldest_first d hits)
