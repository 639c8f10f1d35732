-- ===== src/Incidents/Categories.antt =====
-- The distinct evidence categories of an incident, which the policy counts.
use griefer_security_platfor.Prelude.{
  suc, ◌+◌, arith, ◌≡◌, refl, length, String, ◌↔◌, inl, inr, List, [], ◌∷◌, ◌++◌, map,
  if◌then◌else◌, text_lt, Bool-cases,
}
use mathlib.Core.List.{
  reverse, reverse_aux, Mem, Perm, Nodup, Nodup-cons, mem-cons, mem-cons_self, mem-cons_of_mem,
  Mem-prop, reverse_perm, Nodup-nil, perm_middle, append-nil, not-mem-nil, mem-append,
  mem-append_left, mem-append_right,
}
use mathlib.Core.List.Perm
use mathlib.Core.Logic.Or
use griefer_security_platfor.Prelude.Dict.{contains, contains-Mem, Mem-contains}
use griefer_security_platfor.Incidents.{Finding}

-- The map `seen`: the categories of the findings, each once.
unfoldable pub seen_categories : List String → List Finding → List String
unfolding contains
seen_categories seen [] = seen
seen_categories seen (f ∷ fs) =
    seen_categories (if contains seen f.category then seen else f.category ∷ seen) fs

-- The inner loop of sortCategories: `c` moves towards the front of the sorted part, which is held
-- last item first, while it is less than the item before it.
sink : String → List String → List String
sink c [] = c ∷ []
sink c (d ∷ ds) = if text_lt c d then d ∷ sink c ds else c ∷ d ∷ ds

sort_loop : List String → List String → List String
unfolding sink
sort_loop sorted [] = reverse sorted
sort_loop sorted (c ∷ cs) = sort_loop (sink c sorted) cs

-- sortCategories
unfoldable pub sort_categories : List String → List String
unfolding sort_loop
sort_categories cs = sort_loop [] cs

-- Incident.EvidenceCategories
unfoldable pub evidence_categories : List Finding → List String
unfolding seen_categories sort_categories
evidence_categories findings = sort_categories (seen_categories [] findings)

sink-perm : (c : String) (ds : List String) → Perm (sink c ds) (c ∷ ds)
unfolding sink
sink-perm c [] = Perm.refl (c ∷ [])
sink-perm c (d ∷ ds) = elim (Bool-cases (text_lt c d)) [
  | inl h ↦ rw h (Perm.trans (Perm.cons d (sink-perm c ds)) (Perm.swap c d ds))
  | inr h ↦ rw h (Perm.refl (c ∷ d ∷ ds))
]

sort_loop-perm : (sorted cs : List String) → Perm (sort_loop sorted cs) (sorted ++ cs)
unfolding sort_loop
sort_loop-perm sorted [] = rw append-nil (reverse_perm sorted)
sort_loop-perm sorted (c ∷ cs) =
    Perm.trans (sort_loop-perm (sink c sorted) cs)
      (Perm.trans (Perm.append_right cs (sink-perm c sorted)) (Perm.symm (perm_middle sorted cs)))

-- The members of `seen` and the categories of the findings, and nothing twice.
seen_categories-Nodup :
    (seen : List String) (fs : List Finding) → Nodup seen → Nodup (seen_categories seen fs)
unfolding seen_categories
seen_categories-Nodup seen [] h = h
seen_categories-Nodup seen (f ∷ fs) h = elim (Bool-cases (contains seen f.category)) [
  | inl e ↦ rw e (seen_categories-Nodup seen fs h)
  | inr e ↦ rw e (
      seen_categories-Nodup (f.category ∷ seen) fs
        (Nodup-cons.1 (λ m. cc (e, Mem-contains seen f.category m), h)))
]

abbrev pub categories : List Finding → List String
categories fs = map (λ f. f.category) fs

mem-seen_of_seen :
    (c : String) (seen : List String) (fs : List Finding)
    → Mem c seen
    → Mem c (seen_categories seen fs)
unfolding seen_categories
mem-seen_of_seen c seen [] m = m
mem-seen_of_seen c seen (f ∷ fs) m = elim (Bool-cases (contains seen f.category)) [
  | inl e ↦ rw e (mem-seen_of_seen c seen fs m)
  | inr e ↦ rw e (mem-seen_of_seen c (f.category ∷ seen) fs (mem-cons_of_mem _ m))
]

mem-seen_of_finding :
    (c : String) (seen : List String) (fs : List Finding)
    → Mem c (categories fs)
    → Mem c (seen_categories seen fs)
unfolding seen_categories
mem-seen_of_finding c seen [] m = absurd (not-mem-nil m)
mem-seen_of_finding c seen (f ∷ fs) m = elim (Bool-cases (contains seen f.category)) [
  | inl e ↦ rw e (
      Or.elim Mem-prop (mem-cons.0 m)
        (λ p. mem-seen_of_seen c seen fs (rw p (contains-Mem seen f.category e)))
        (λ q. mem-seen_of_finding c seen fs q))
  | inr e ↦ rw e (
      Or.elim Mem-prop (mem-cons.0 m)
        (λ p. mem-seen_of_seen c (f.category ∷ seen) fs (rw p mem-cons_self))
        (λ q. mem-seen_of_finding c (f.category ∷ seen) fs q))
]

finding_of_mem-seen :
    (c : String) (seen : List String) (fs : List Finding)
    → Mem c (seen_categories seen fs)
    → Mem c (seen ++ categories fs)
unfolding seen_categories
finding_of_mem-seen c seen [] m = rw append-nil m
finding_of_mem-seen c seen (f ∷ fs) m = elim (Bool-cases (contains seen f.category)) [
  | inl e ↦
      Or.elim Mem-prop (mem-append.0 (finding_of_mem-seen c seen fs (rw e at m)))
        (λ a. mem-append_left _ a) (λ b. mem-append_right seen (mem-cons_of_mem f.category b))
  | inr e ↦
      Perm.subset (Perm.symm (perm_middle seen (categories fs))) c
        (finding_of_mem-seen c (f.category ∷ seen) fs (rw e at m))
]

length-sink : (c : String) (ds : List String) → length (sink c ds) ≡ suc (length ds)
unfolding sink
length-sink c [] = refl
length-sink c (d ∷ ds) = ground (arith, length-sink c ds)

length-reverse_aux :
    (xs rest : List String) → length (reverse_aux xs rest) ≡ length xs + length rest
length-reverse_aux [] rest = omega arith
length-reverse_aux (x ∷ xs) rest = omega (arith, length-reverse_aux xs (x ∷ rest))

length-sort_loop :
    (sorted cs : List String) → length (sort_loop sorted cs) ≡ length sorted + length cs
unfolding sort_loop
length-sort_loop sorted [] = length-reverse_aux sorted []
length-sort_loop sorted (c ∷ cs) =
    omega (arith, length-sort_loop (sink c sorted) cs, length-sink c sorted)

-- Sorting keeps the number of the categories.
pub length-evidence_categories :
    (fs : List Finding) → length (evidence_categories fs) ≡ length (seen_categories [] fs)
unfolding evidence_categories sort_categories
length-evidence_categories fs = omega (arith, length-sort_loop [] (seen_categories [] fs))

-- The evidence categories of an incident are those of its findings, each listed once however many
-- findings share it.
evidence_categories_lem :
    (fs : List Finding)
    → Nodup (evidence_categories fs)
      × ((c : String) → Mem c (evidence_categories fs) ↔ Mem c (categories fs))
unfolding evidence_categories sort_categories
evidence_categories_lem fs =
    let seen = seen_categories [] fs in
    let p = sort_loop-perm [] seen in
    (
      Perm.nodup (Perm.symm p) (seen_categories-Nodup [] fs Nodup-nil),
      λ c. (
        λ m. finding_of_mem-seen c [] fs (Perm.subset p c m),
        λ m. Perm.subset (Perm.symm p) c (mem-seen_of_finding c [] fs m),
      ),
    )
