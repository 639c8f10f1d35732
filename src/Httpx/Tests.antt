-- ===== src/Httpx/Tests.antt =====
-- Tests of the middlewares.
use griefer_security_platfor.Prelude.{
  ℕ, ◌≤◌, ◌≡◌, refl, ◌⊎◌, Bool, true, false, ◌||◌, [], ◌∷◌, ◌==◌, length,
}
use griefer_security_platfor.Prelude.Text.{trim_space}
use griefer_security_platfor.Httpx.{Request, refused, served, Handler}
use griefer_security_platfor.Httpx.Principal.{
  is_principal, is_zero, principal_middleware, require_role, sanitize_request_id,
  require_role_guards,
}
use griefer_security_platfor.Httpx.RateLimiter.{
  Limiters, new_rate_limiter, allow_all, allow_all_bounded,
}

abbrev from_admin : Request
from_admin = record {
  actor_header = " console:ada ";
  actor_role_header = "administrator";
  operator = record { subject = ""; role = "" };
}

abbrev list_audit : Handler ℕ
list_audit r = served 7

reaches_audit : principal_middleware (require_role "administrator" list_audit) from_admin ≡ served 7
unfolding principal_middleware require_role is_principal trim_space
reaches_audit = refl

stops_analyst :
    principal_middleware
      (require_role "administrator" list_audit)
      (record from_admin { actor_role_header = "analyst" })
    ≡ refused 403 "forbidden"
unfolding principal_middleware require_role is_principal trim_space
stops_analyst = refl

stops_malformed :
    principal_middleware
      (require_role "administrator" list_audit)
      (record from_admin { actor_header = "a b" })
    ≡ refused 400 "validation_failed"
unfolding principal_middleware require_role is_principal trim_space
stops_malformed = refl

keeps_safe_id : sanitize_request_id " req-1 " ≡ "req-1"
unfolding sanitize_request_id trim_space
keeps_safe_id = refl

drops_forged_id : sanitize_request_id "req\nforged" ≡ ""
unfolding sanitize_request_id trim_space
drops_forged_id = refl

require_role_guards_example :
    ((trim_space from_admin.actor_header ≡ "")
      × (trim_space from_admin.actor_role_header ≡ "")
      × (is_zero from_admin.operator || from_admin.operator.role == "administrator") ≡ true)
    ⊎ ((is_principal (trim_space from_admin.actor_header) ≡ true)
        × (trim_space from_admin.actor_role_header ≡ "administrator"))
require_role_guards_example =
    require_role_guards "administrator" list_audit from_admin 7 reaches_audit

-- A bucket of one token that is never filled again.
abbrev one_token : Limiters Bool
one_token = record { new_limiter = true; take_token = λ now full. (full, false) }

allow_all_bounded_example :
    length
      (allow_all one_token
        (("10.0.0.1", 1) ∷ ("10.0.0.2", 2) ∷ ("10.0.0.1", 3) ∷ [])
        new_rate_limiter).buckets
    ≤ 10000
allow_all_bounded_example =
    allow_all_bounded one_token (("10.0.0.1", 1) ∷ ("10.0.0.2", 2) ∷ ("10.0.0.1", 3) ∷ [])
