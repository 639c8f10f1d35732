-- ===== src/Httpx/RateLimiter.antt =====
-- internal/httpx/middleware.go: the rate limiter's table of clients.
use griefer_security_platfor.Prelude.{
  ℕ, ◌-◌, ◌≤◌, String, ◌≡◌, refl, ◌∙◌, inl, inr, Bool, false, Option, none, some, List, [], ◌∷◌,
  arith, ltb, leb, if◌then◌else◌, Bool-cases, length,
}
use griefer_security_platfor.Prelude.Dict.{lookup, insert, length-insert-le}
use griefer_security_platfor.Events.{Time}

-- `L` is the token bucket of golang.org/x/time/rate; `take_token` is its Allow at a time.
pub record Limiters (L : Type 0) : Type 0 where
  pub new_limiter : L
  pub take_token : Time → L → Bool × L

pub record RateLimiter (L : Type 0) : Type 0 where
  pub buckets : List (String × (L × Time))
  pub ttl : Time
  pub max_hosts : ℕ

-- The part of the limiter's set-up that bounds its memory: ten minutes and 10000 clients.
unfoldable pub new_rate_limiter : {L : Type 0} → RateLimiter L
new_rate_limiter = record { buckets = []; ttl = 600_000_000_000; max_hosts = 10000 }

module _ {L : Type 0} (limiters : Limiters L) where
  -- evictLocked
  evict : Time → Time → List (String × (L × Time)) → List (String × (L × Time))
  evict now ttl [] = []
  evict now ttl ((k, b) ∷ m) =
      let rest = evict now ttl m in if ltb ttl (now - b.1) then rest else (k, b) ∷ rest

  -- The bucket of the client is used, and written back under its key.
  use_bucket : String → Time → L → RateLimiter L → Bool × RateLimiter L
  unfolding insert
  use_bucket client now b l =
      let answer = limiters.take_token now b in
      (answer.0, record l { buckets = insert client (answer.1, now) l.buckets })

  evicted : Time → RateLimiter L → RateLimiter L
  unfolding evict
  evicted now l =
      if leb l.max_hosts (length l.buckets)
      then record l { buckets = evict now l.ttl l.buckets }
      else l

  allow_new : String → Time → RateLimiter L → Bool × RateLimiter L
  unfolding use_bucket
  allow_new client now l =
      if leb l.max_hosts (length l.buckets)
      then (false, l)
      else use_bucket client now limiters.new_limiter l

  allow_found : String → Time → RateLimiter L → Option (L × Time) → Bool × RateLimiter L
  unfolding use_bucket allow_new evicted
  allow_found client now l (some b) = use_bucket client now b.0 l
  allow_found client now l none = allow_new client now (evicted now l)

  -- allow
  unfoldable pub allow : String → Time → RateLimiter L → Bool × RateLimiter L
  unfolding allow_found lookup
  allow client now l = allow_found client now l (lookup client l.buckets)

  -- The limiter after a sequence of requests, each of a client at a time.
  unfoldable pub allow_all : List (String × Time) → RateLimiter L → RateLimiter L
  allow_all [] l = l
  allow_all ((client, now) ∷ more) l = allow_all more (allow client now l).1

  abbrev Bounded : RateLimiter L → Type 0
  Bounded l = length l.buckets ≤ l.max_hosts

  length-insert-found :
      (k : String) (v w : L × Time) (m : List (String × (L × Time)))
      → lookup k m ≡ some w
      → length (insert k v m) ≡ length m
  unfolding lookup insert
  length-insert-found k v w [] h = cc
  length-insert-found k v w ((j, x) ∷ m) h = ground (arith, length-insert-found k v w m)

  length-evict-le :
      (now ttl : Time) (m : List (String × (L × Time))) → length (evict now ttl m) ≤ length m
  unfolding evict
  length-evict-le now ttl [] = omega arith
  length-evict-le now ttl ((k, b) ∷ m) = ground (arith, length-evict-le now ttl m)

  allow_new-Bounded :
      (client : String) (now : Time) (l : RateLimiter L)
      → Bounded l
      → Bounded (allow_new client now l).1
  allow_new-Bounded client now l h = elim (Bool-cases (leb l.max_hosts (length l.buckets))) [
    | inl e ↦ unfold allow_new in rw e h
    | inr e ↦
        let le =
          length-insert-le client ((limiters.take_token now limiters.new_limiter).1, now)
            l.buckets in
        unfold allow_new use_bucket in rw e (ground (arith, le))
  ]

  evicted-Bounded : (now : Time) (l : RateLimiter L) → Bounded l → Bounded (evicted now l)
  evicted-Bounded now l h = elim (Bool-cases (leb l.max_hosts (length l.buckets))) [
    | inl e ↦
        let le = length-evict-le now l.ttl l.buckets in
        unfold evicted in rw e (omega (arith, le, h))
    | inr e ↦ unfold evicted in rw e h
  ]

  allow_found-Bounded :
      (client : String) (now : Time) (l : RateLimiter L) (o : Option (L × Time))
      → lookup client l.buckets ≡ o
      → Bounded l
      → Bounded (allow_found client now l o).1
  allow_found-Bounded client now l (some b) e h =
      let same = length-insert-found client ((limiters.take_token now b.0).1, now) b l.buckets e in
      unfold allow_found use_bucket in rw same h
  allow_found-Bounded client now l none e h =
      unfold allow_found in allow_new-Bounded client now (evicted now l) (evicted-Bounded now l h)

  allow_all-Bounded :
      (calls : List (String × Time)) (l : RateLimiter L) → Bounded l → Bounded (allow_all calls l)
  unfolding allow_all
  allow_all-Bounded [] l h = h
  allow_all-Bounded ((client, now) ∷ more) l h =
      allow_all-Bounded more (allow client now l).1
        (unfold allow in allow_found-Bounded client now l (lookup client l.buckets) refl h)

  evicted-max : (now : Time) (l : RateLimiter L) → (evicted now l).max_hosts ≡ l.max_hosts
  evicted-max now l = elim (Bool-cases (leb l.max_hosts (length l.buckets))) [
    | inl e ↦ unfold evicted in rw e
    | inr e ↦ unfold evicted in rw e
  ]

  allow_new-max :
      (client : String) (now : Time) (l : RateLimiter L)
      → (allow_new client now l).1.max_hosts ≡ l.max_hosts
  allow_new-max client now l = elim (Bool-cases (leb l.max_hosts (length l.buckets))) [
    | inl e ↦ unfold allow_new in rw e
    | inr e ↦ unfold allow_new use_bucket in rw e
  ]

  allow_found-max :
      (client : String) (now : Time) (l : RateLimiter L) (o : Option (L × Time))
      → (allow_found client now l o).1.max_hosts ≡ l.max_hosts
  allow_found-max client now l (some b) = unfold allow_found use_bucket in refl
  allow_found-max client now l none =
      unfold allow_found in (allow_new-max client now (evicted now l) ∙ evicted-max now l)

  allow_all-max :
      (calls : List (String × Time)) (l : RateLimiter L)
      → (allow_all calls l).max_hosts ≡ l.max_hosts
  unfolding allow_all
  allow_all-max [] l = refl
  allow_all-max ((client, now) ∷ more) l =
      allow_all-max more (allow client now l).1
      ∙ (unfold allow in allow_found-max client now l (lookup client l.buckets))

  -- However many clients call, in whatever order and at whatever times, a new limiter never tracks
  -- more than 10000 of them.
  pub allow_all_bounded :
      (calls : List (String × Time)) → length (allow_all calls new_rate_limiter).buckets ≤ 10000
  allow_all_bounded calls =
      let bound =
        allow_all-Bounded calls new_rate_limiter (unfold new_rate_limiter in omega arith) in
      let same : (allow_all calls (new_rate_limiter {L = L})).max_hosts ≡ 10000 =
        allow_all-max calls new_rate_limiter ∙ (unfold new_rate_limiter in refl) in
      omega (arith, bound, same)
