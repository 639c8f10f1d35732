-- ===== src/Httpx.antt =====
-- internal/httpx: what surrounds the handlers of the API. A handler is a function from a request to
-- what it replies, either a refusal by a middleware or an answer of its own.
pub mod Principal
pub mod RateLimiter
mod Tests
use griefer_security_platfor.Prelude.{ℕ, String}

-- httpx.Principal
pub record Operator : Type 0 where
  pub subject : String
  pub role : String

-- The parts of a request that the middlewares read; `operator` is the context's principal.
pub record Request : Type 0 where
  pub actor_header : String
  pub actor_role_header : String
  pub operator : Operator

pub data Reply {ℓ} (A : Type ℓ) : Type ℓ where
  refused : (status : ℕ) (code : String) → Reply A
  served : A → Reply A

abbrev pub Handler {ℓ} : Type ℓ → Type ℓ
Handler A = Request → Reply A
