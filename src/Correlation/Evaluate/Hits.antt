-- ===== src/Correlation/Evaluate/Hits.antt =====
-- Hits in the order of time, under a cutoff and under a bound on their number.
use griefer_security_platfor.Prelude.{
  ℕ, suc, ◌-◌, ◌≤◌, ◌≡◌, refl, sym, ap, ◌∙◌, inl, inr, true, false, List, [], ◌∷◌, ◌++◌, arith, ltb,
  leb, Bool-cases, length, drop, length-append, length-drop, leb→le, All,
}
use Prim.Native.Nat.{min}
use griefer_security_platfor.Prelude.{All-snoc, All-map}
use griefer_security_platfor.Events.{Time}
use griefer_security_platfor.Correlation.Evaluate.{since, last_hits}

-- The earliest first, and none before one that comes earlier in the list.
abbrev pub IsChronological : List Time → Type 0
IsChronological [] = Unit
IsChronological (t ∷ ts) = All (λ s. t ≤ s) ts × IsChronological ts

since-All : (P : Time → Type 0) (c : Time) (ts : List Time) → All P ts → All P (since c ts)
unfolding since
since-All P c [] h = tt
since-All P c (t ∷ ts) h = elim (Bool-cases (ltb t c)) [
  | inl e ↦ rw e (since-All P c ts h.1)
  | inr e ↦ rw e (h.0, since-All P c ts h.1)
]

pub since-IsChronological :
    (c : Time) (ts : List Time) → IsChronological ts → IsChronological (since c ts)
unfolding since
since-IsChronological c [] h = tt
since-IsChronological c (t ∷ ts) h = elim (Bool-cases (ltb t c)) [
  | inl e ↦ rw e (since-IsChronological c ts h.1)
  | inr e ↦ rw e (since-All (λ s. t ≤ s) c ts h.0, since-IsChronological c ts h.1)
]

pub snoc-IsChronological :
    (ts : List Time) (a : Time)
    → IsChronological ts
    → All (λ t. t ≤ a) ts
    → IsChronological (ts ++ a ∷ [])
snoc-IsChronological [] a h k = (tt, tt)
snoc-IsChronological (t ∷ ts) a h k =
    (All-snoc (λ s. t ≤ s) ts a h.0 k.0, snoc-IsChronological ts a h.1 k.1)

pub since-snoc :
    (c : Time) (ts : List Time) (a : Time) → c ≤ a → since c (ts ++ a ∷ []) ≡ since c ts ++ a ∷ []
unfolding since
since-snoc c [] a h = ground arith
since-snoc c (t ∷ ts) a h =
    rw (since-snoc c ts a h) (elim (Bool-cases (ltb t c)) [ inl e ↦ rw e refl | inr e ↦ rw e refl ])

-- A later cutoff makes an earlier one needless.
pub since-since : (c d : Time) (ts : List Time) → c ≤ d → since d (since c ts) ≡ since d ts
unfolding since
since-since c d [] h = refl
since-since c d (t ∷ ts) h = elim (Bool-cases (ltb t c)) [
  | inl e ↦ let e2 : ltb t d ≡ true = ground arith in rw (e, e2) (since-since c d ts h)
  | inr e ↦ rw e (rw (since-since c d ts h) refl)
]

-- What a cutoff before all of them leaves.
since_noop : (c : Time) (ts : List Time) → All (λ t. c ≤ t) ts → since c ts ≡ ts
unfolding since
since_noop c [] h = refl
since_noop c (t ∷ ts) h =
    let e : ltb t c ≡ false = ground (arith, h.0) in rw e (ap (λ r. t ∷ r) (since_noop c ts h.1))

length-since : (c : Time) (ts : List Time) → length (since c ts) ≤ length ts
unfolding since
length-since c [] = omega arith
length-since c (t ∷ ts) = ground (arith, length-since c ts)

last_hits-drop : (n : ℕ) (ts : List Time) → last_hits n ts ≡ drop (length ts - n) ts
unfolding last_hits
last_hits-drop n ts = elim (Bool-cases (ltb n (length ts))) [
  | inl e ↦ rw e refl
  | inr e ↦ let none_over : length ts - n ≡ 0 = ground arith in rw (e, none_over) refl
]

pub last_hits-short : (n : ℕ) (ts : List Time) → length ts ≤ n → last_hits n ts ≡ ts
last_hits-short n ts h =
    let none_over : length ts - n ≡ 0 = omega arith in rw (last_hits-drop n ts, none_over) refl

last_hits-long :
    (n : ℕ) (t : Time) (ts : List Time) → n ≤ length ts → last_hits n (t ∷ ts) ≡ last_hits n ts
last_hits-long n t ts h =
    let one_more : suc (length ts) - n ≡ suc (length ts - n) = omega arith in
    rw (last_hits-drop n (t ∷ ts), last_hits-drop n ts, one_more) refl

pub length-last_hits : (n : ℕ) (ts : List Time) → length (last_hits n ts) ≡ min n (length ts)
length-last_hits n ts =
    ap length (last_hits-drop n ts) ∙ omega (arith, length-drop (length ts - n) ts)

since-old : (c t : Time) (ts : List Time) → ltb t c ≡ true → since c (t ∷ ts) ≡ since c ts
unfolding since
since-old c t ts e = rw e refl

-- Forgetting all but the last hits commutes with a cutoff, where the hits are in order,
pub since-last_hits :
    (n : ℕ) (c : Time) (ts : List Time)
    → IsChronological ts
    → since c (last_hits n ts) ≡ last_hits n (since c ts)
since-last_hits n c [] h =
    let nothing = last_hits-short n [] (omega arith) in
    unfold since in ap (since c) nothing ∙ sym nothing
since-last_hits n c (t ∷ ts) h = elim (Bool-cases (leb n (length ts))) [
  | inl long ↦
      let shorter = last_hits-long n t ts (leb→le n (length ts) long) in
      elim (Bool-cases (ltb t c)) [
        | inl old ↦
            ap (since c) shorter
            ∙ since-last_hits n c ts h.1
            ∙ ap (last_hits n) (sym (since-old c t ts old))
        | inr new ↦
            let begun : c ≤ t = ground (arith, new) in
            let later = All-map (λ s q. omega (arith, begun, q)) ts h.0 in
            ap (since c) shorter
            ∙ since-last_hits n c ts h.1
            ∙ ap (last_hits n) (since_noop c ts later)
            ∙ sym shorter
            ∙ ap (last_hits n) (sym (since_noop c (t ∷ ts) (begun, later)))
      ]
  | inr short ↦
      let fits : suc (length ts) ≤ n = ground arith in
      ap (since c) (last_hits-short n (t ∷ ts) fits)
      ∙ sym (last_hits-short n (since c (t ∷ ts)) (omega (arith, length-since c (t ∷ ts))))
]

-- and with one hit more.
pub last_hits-snoc :
    (n : ℕ) (ts : List Time) (a : Time)
    → last_hits n (last_hits n ts ++ a ∷ []) ≡ last_hits n (ts ++ a ∷ [])
last_hits-snoc n [] a = ap (λ r. last_hits n (r ++ a ∷ [])) (last_hits-short n [] (omega arith))
last_hits-snoc n (t ∷ ts) a = elim (Bool-cases (leb n (length ts))) [
  | inl long ↦
      ap (λ r. last_hits n (r ++ a ∷ [])) (last_hits-long n t ts (leb→le n (length ts) long))
      ∙ last_hits-snoc n ts a
      ∙ sym (
          last_hits-long n t (ts ++ a ∷ [])
            (omega (arith, leb→le n (length ts) long, length-append ts (a ∷ []))))
  | inr short ↦
      let fits : suc (length ts) ≤ n = ground arith in
      ap (λ r. last_hits n (r ++ a ∷ [])) (last_hits-short n (t ∷ ts) fits)
]
