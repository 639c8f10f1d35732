-- ===== src/Config/Accepted.antt =====
-- What a configuration has that Validate accepts.
use griefer_security_platfor.Prelude.{
  String, ◌≡◌, refl, sym, ◌≢◌, ◌⊎◌, Bool, true, false, not, ◌&&◌, inl, inr, none, some, Option,
  List, [], ◌∷◌, ◌++◌, arith, ◌==◌, eq_iff, Bool-cases, All, All-map,
}
use griefer_security_platfor.Prelude.Float.{FloatOps}
use griefer_security_platfor.Prelude.Result.{ok, err}
use griefer_security_platfor.Prelude.Text.{Unicode, trim_space}
use griefer_security_platfor.Config.{
  Config, Checked, Warning, ConfigError, Parsers, refuse_if, and_then, check_all, is_positive,
  is_public_bind, check_public_bind, check_host, check_address, check_mode, timeouts_positive,
  checks, validate, public_without_authentication,
}
use mathlib.Core.List.{Mem, mem-append, mem-cons_self}
use mathlib.Core.Path.{subst}
use mathlib.Core.Logic.Or

-- The check is passed, and what it warns of is among the warnings.
abbrev Passes : List Warning → Checked → Type 0
Passes ws r = (own : List Warning) × (r ≡ ok own) × ((w : Warning) → Mem w own → Mem w ws)

and_then_ok :
    (r s : Checked) (ws : List Warning)
    → and_then r s ≡ ok ws
    → (own : List Warning) × (more : List Warning) × (r ≡ ok own)
      × (s ≡ ok more)
      × (ws ≡ own ++ more)
unfolding and_then
and_then_ok (err e) s ws h = cc
and_then_ok (ok own) (err e) ws h = cc
and_then_ok (ok own) (ok more) ws h = (own, more, refl, refl, cc)

weaken :
    (ws more : List Warning)
    → ((w : Warning) → Mem w ws → Mem w more)
    → (r : Checked) → Passes ws r
    → Passes more r
weaken ws more f r (own, e, g) = (own, e, λ w m. f w (g w m))

check_all-Passes :
    (rs : List Checked) (ws : List Warning) → check_all rs ≡ ok ws → All (Passes ws) rs
unfolding check_all
check_all-Passes [] ws h = tt
check_all-Passes (r ∷ rs) ws h =
    let (own, more, first, others, same) = and_then_ok r (check_all rs) ws h in
    subst (λ ws. All (Passes ws) (r ∷ rs)) (sym same)
      (
        (own, first, λ w m. (mem-append {s = own} {t = more}).1 (Or.inl m)),
        All-map (weaken more (own ++ more) (λ w m. (mem-append {s = own} {t = more}).1 (Or.inr m)))
            rs (check_all-Passes rs more others),
      )

refuse_if_passed :
    (ws : List Warning) (b : Bool) (e : ConfigError) → Passes ws (refuse_if b e) → b ≡ false
unfolding refuse_if
refuse_if_passed ws true e p = cc p.1
refuse_if_passed ws false e p = refl

check_mode_passed :
    (ws : List Warning) (mode : String) → Passes ws (check_mode mode) → mode ≡ "simulate"
unfolding check_mode
check_mode_passed ws mode p = ground (arith, p.1, eq_iff mode "simulate")

-- The API has a token, or the operator has accepted a public listener without one, of which there is
-- then a warning.
abbrev AccessGuarded : Config → List Warning → Type 0
AccessGuarded c ws =
    (c.auth.internal_api_token ≢ "")
    ⊎ ((c.http.allow_public_bind ≡ true) × Mem (public_without_authentication c.http.addr) ws)

-- The address has a host and a numeric port, and the host is local or guarded.
abbrev HostSafe : Parsers → Config → List Warning → Option (String × String) → Type 0
HostSafe parsers c ws split =
    (host : String) × (port : String) × (split ≡ some (host, port))
    × (parsers.is_number port ≡ true)
    × ((is_public_bind parsers host ≡ false) ⊎ AccessGuarded c ws)

check_public_bind_passed :
    (ws : List Warning) (c : Config) → Passes ws (check_public_bind c) → AccessGuarded c ws
unfolding check_public_bind
check_public_bind_passed ws c (own, e, keeps) =
    let open_bind = public_without_authentication c.http.addr in
    elim (Bool-cases (c.auth.internal_api_token == "")) [
      | inr token ↦ inl (λ q. ground (arith, token, q, eq_iff c.auth.internal_api_token ""))
      | inl empty ↦ elim (Bool-cases c.http.allow_public_bind) [
        | inl allowed ↦
            let same : own ≡ open_bind ∷ [] = ground (arith, e, empty, allowed) in
            inr (allowed, keeps open_bind (subst (Mem open_bind) (sym same) (mem-cons_self)))
        | inr closed ↦ absurd (ground (arith, e, empty, closed))
      ]
    ]

check_host_passed :
    (parsers : Parsers) (ws : List Warning) (c : Config) (split : Option (String × String))
    → Passes ws (check_host parsers c split)
    → HostSafe parsers c ws split
unfolding check_host
check_host_passed parsers ws c none p = cc (p.1)
check_host_passed parsers ws c (some (host, port)) (own, e, keeps) =
    elim (Bool-cases (parsers.is_number port)) [
      | inr text ↦ absurd (ground (arith, e, text))
      | inl number ↦ elim (Bool-cases (is_public_bind parsers host)) [
        | inr near ↦ (host, port, refl, number, inl near)
        | inl far ↦ (
          host,
          port,
          refl,
          number,
          inr (check_public_bind_passed ws c (own, rw (number, far) at e, keeps)),
        )
      ]
    ]

module _ (parsers : Parsers) (fl : FloatOps) (u : Unicode) where
  pub record IsSafe (c : Config) (ws : List Warning) : Type 0 where
    pub address : HostSafe parsers c ws (parsers.split_host_port c.http.addr)
    pub fail_closed : c.opa.fail_closed ≡ true
    pub no_real_actions : c.response.allow_real_actions ≡ false
    pub simulates : c.response.mode ≡ "simulate"
    pub has_dsn : (c.postgres.enabled && trim_space c.postgres.dsn == "") ≡ false
    pub has_url : (c.nats.enabled && trim_space c.nats.url == "") ≡ false
    pub bodies_bounded : is_positive c.http.max_request_bytes ≡ true
    pub batches_bounded : is_positive c.http.max_batch_events ≡ true
    pub rated : fl.at_most c.http.rate_limit_rps (fl.of_int 0) ≡ false
    pub burst_positive : is_positive c.http.rate_limit_burst ≡ true
    pub has_password : (c.nats.enabled && not (c.nats.user == "") && c.nats.password == "") ≡ false
    pub timed : timeouts_positive c ≡ true

  -- A configuration that Validate accepts listens on an address with a numeric port, and where that
  -- address is public it has a token or the operator's leave, with the warning that says so. It fails
  -- closed, allows no real action and only simulates; its limits and timeouts are positive and its
  -- rate is not at most 0; and what it enables has its address and its password.
  pub validate-IsSafe :
      (c : Config) (ws : List Warning) → validate parsers fl u c ≡ ok ws → IsSafe c ws
  unfolding validate checks check_address
  validate-IsSafe c ws h =
      let passed = check_all-Passes (checks parsers fl u c) ws h in
      let (
        address,
        (
          bytes,
          (
            large,
            (
              batches,
              (
                rate,
                (
                  burst,
                  (
                    times,
                    (dsn, (memory, (closed, (url, (real, (data_used, (password, (mode, rest)))))))),
                  ),
                ),
              ),
            ),
          ),
        ),
      ) =
        passed in
      record {
        address = check_host_passed parsers ws c _ address;
        fail_closed = ground (arith, refuse_if_passed ws _ _ closed);
        no_real_actions = refuse_if_passed ws _ _ real;
        simulates = check_mode_passed ws c.response.mode mode;
        has_dsn = refuse_if_passed ws _ _ dsn;
        has_url = refuse_if_passed ws _ _ url;
        bodies_bounded = ground (arith, refuse_if_passed ws _ _ bytes);
        batches_bounded = ground (arith, refuse_if_passed ws _ _ batches);
        rated = refuse_if_passed ws _ _ rate;
        burst_positive = ground (arith, refuse_if_passed ws _ _ burst);
        has_password = refuse_if_passed ws _ _ password;
        timed = ground (arith, refuse_if_passed ws _ _ times);
      }
