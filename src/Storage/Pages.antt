-- ===== src/Storage/Pages.antt =====
-- Listings: a page is the part of the listing that its limit and offset name.
use griefer_security_platfor.Prelude.{
  ℕ, zero, suc, ◌+◌, ◌-◌, ◌≤◌, ◌≡◌, refl, sym, ap, ◌∙◌, inl, inr, List, [], ◌∷◌, ◌++◌, arith, ltb,
  leb, Bool-cases, length, take, drop, length-take, length-drop, leb→le, ltb→lt,
}
use griefer_security_platfor.Prelude.Int.{ℤ, pos, negsuc, floor_zero}
use griefer_security_platfor.Storage.{
  MemoryStore, clamp_limit, max_page_size, page, reversed, list_audit, list_events,
}
use Prim.Native.Nat.{◌*◌}

-- A clamped limit is between 1 and 200, and a limit in that range is kept.
pub clamp_limit_bounds : (limit : ℤ) → (1 ≤ clamp_limit limit) × (clamp_limit limit ≤ max_page_size)
unfolding clamp_limit
clamp_limit_bounds (pos n) = ground arith
clamp_limit_bounds (negsuc n) = omega arith

take_all {ℓ} : {A : Type ℓ} (n : ℕ) (xs : List A) → length xs ≤ n → take n xs ≡ xs
take_all zero [] h = refl
take_all zero (x ∷ xs) h = elim h [ ]
take_all (suc n) [] h = refl
take_all (suc n) (x ∷ xs) h = cc (take_all n xs (omega arith))

drop_all {ℓ} : {A : Type ℓ} (n : ℕ) (xs : List A) → length xs ≤ n → drop n xs ≡ []
drop_all zero [] h = refl
drop_all zero (x ∷ xs) h = elim h [ ]
drop_all (suc n) [] h = refl
drop_all (suc n) (x ∷ xs) h = drop_all n xs (omega arith)

module _ {ℓ} {A : Type ℓ} where
  -- The branches of the source come to one thing: skip `offset` items and take up to `limit`.
  pub page_lem :
      (limit offset : ℕ) (xs : List A) → page limit offset xs ≡ take limit (drop offset xs)
  page_lem limit offset xs = elim (Bool-cases (leb (length xs) offset)) [
    | inl beyond ↦
        unfold page in
        rw beyond
          (rw (drop_all offset xs (leb→le _ _ beyond)) (sym (take_all limit [] (omega arith))))
    | inr inside ↦ elim (Bool-cases (ltb (length xs) (offset + limit))) [
      | inl cut ↦
          unfold page in
          rw (inside, cut)
            (take_all (length xs - offset) (drop offset xs) (omega (arith, length-drop offset xs))
              ∙ sym (
                  take_all limit (drop offset xs)
                    (omega (arith, length-drop offset xs, ltb→lt _ _ cut))))
      | inr whole ↦
          let e : offset + limit - offset ≡ limit = omega arith in
          unfold page in rw (inside, whole) (rw e)
    ]
  ]

  take-add : (a b : ℕ) (xs : List A) → take (a + b) xs ≡ take a xs ++ take b (drop a xs)
  take-add zero b xs = let e : 0 + b ≡ b = omega arith in rw e
  take-add (suc a) b [] =
      let e : suc a + b ≡ suc (a + b) = omega arith in rw e (sym (take_all b [] (omega arith)))
  take-add (suc a) b (x ∷ xs) =
      let e : suc a + b ≡ suc (a + b) = omega arith in rw e (ap (◌∷◌ x) (take-add a b xs))

  drop-add : (a b : ℕ) (xs : List A) → drop b (drop a xs) ≡ drop (a + b) xs
  drop-add zero b xs = let e : 0 + b ≡ b = omega arith in rw e
  drop-add (suc a) b [] =
      let e : suc a + b ≡ suc (a + b) = omega arith in rw e (drop_all b [] (omega arith))
  drop-add (suc a) b (x ∷ xs) =
      let e : suc a + b ≡ suc (a + b) = omega arith in rw e (drop-add a b xs)

  -- The `n` pages from `offset` on, one after another.
  pub walk : ℕ → ℕ → ℕ → List A → List A
  unfolding page
  walk zero limit offset xs = []
  walk (suc n) limit offset xs = page limit offset xs ++ walk n limit (offset + limit) xs

  walk_lem :
      (n limit offset : ℕ) (xs : List A)
      → walk n limit offset xs ≡ take (n * limit) (drop offset xs)
  walk_lem zero limit offset xs = let e : 0 * limit ≡ 0 = omega arith in unfold walk in rw e
  walk_lem (suc n) limit offset xs =
      let e : suc n * limit ≡ limit + n * limit = grind arith in
      let rest = walk_lem n limit (offset + limit) xs in go e rest
    where
      go :
          suc n * limit ≡ limit + n * limit
          → walk n limit (offset + limit) xs ≡ take (n * limit) (drop (offset + limit) xs)
          → walk (suc n) limit offset xs ≡ take (suc n * limit) (drop offset xs)
      go e rest =
          unfold walk in
          rw (
            page_lem limit offset xs,
            rest,
            e,
            take-add limit (n * limit) (drop offset xs),
            drop-add offset limit xs,
          )

-- Enough pages of one size, each at the offset where the last one ended, put together the whole
-- listing, no item left out and none repeated.
pub walk_all {ℓ} :
    {A : Type ℓ} (n limit : ℕ) (xs : List A) → length xs ≤ n * limit → walk n limit 0 xs ≡ xs
walk_all n limit xs h = walk_lem n limit 0 xs ∙ take_all (n * limit) xs h

page_bounded {ℓ} :
    {A : Type ℓ} (limit : ℤ) (offset : ℕ) (xs : List A)
    → length (page (clamp_limit limit) offset xs) ≤ max_page_size
page_bounded limit offset xs =
    let n = length-take (clamp_limit limit) (drop offset xs) in
    let b = clamp_limit_bounds limit in
    rw (page_lem (clamp_limit limit) offset xs) (ground (arith, n, b))

-- A page of events or of audit entries never holds more than 200 items, for any request.
pub pages_bounded :
    (limit offset : ℤ) (s : MemoryStore)
    → (length (list_events limit offset s).0 ≤ max_page_size)
      × (length (list_audit limit offset s).0 ≤ max_page_size)
pages_bounded limit offset s = (
  unfold list_events in page_bounded limit (floor_zero offset) (reversed [] s.events),
  unfold list_audit in page_bounded limit (floor_zero offset) s.audit_log,
)
