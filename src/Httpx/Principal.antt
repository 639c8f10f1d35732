-- ===== src/Httpx/Principal.antt =====
-- internal/httpx/principal.go and sanitizeRequestID of middleware.go: who a request is made for.
use griefer_security_platfor.Prelude.{
  ℕ, suc, String, ◌≡◌, refl, ◌⊎◌, inl, inr, Bool, true, false, not, ◌&&◌, ◌||◌, List, [], ◌∷◌,
  arith, ◌==◌, eq_iff, ltb, leb, if◌then◌else◌, Bool-cases,
}
use Prim.Native.Char.{Char, code}
use griefer_security_platfor.Prelude.Text.{trim_space}
use griefer_security_platfor.Httpx.{Operator, Request, refused, served, Handler}

-- [A-Za-z0-9]
is_alphanumeric : Char → Bool
is_alphanumeric c =
    let n = code c in
    (leb b'a' n && leb n b'z') || (leb b'A' n && leb n b'Z') || (leb b'0' n && leb n b'9')

contains_code : ℕ → List ℕ → Bool
contains_code n [] = false
contains_code n (m ∷ ms) = leb n m && leb m n || contains_code n ms

-- [A-Za-z0-9._:@-]
is_principal_char : Char → Bool
unfolding is_alphanumeric contains_code
is_principal_char c =
    let n = code c in is_alphanumeric c || contains_code n (b'.' ∷ b'_' ∷ b':' ∷ b'@' ∷ b'-' ∷ [])

-- The number of characters, which are single bytes where a pattern below matches.
text_length : String → ℕ
text_length String.[] = 0
text_length (String.◌∷◌ c s) = suc (text_length s)

all_chars : (Char → Bool) → String → Bool
all_chars p String.[] = true
all_chars p (String.◌∷◌ c s) = p c && all_chars p s

-- principalPattern.MatchString
unfoldable pub is_principal : String → Bool
unfolding is_principal_char text_length all_chars
is_principal s = leb 1 (text_length s) && leb (text_length s) 128 && all_chars is_principal_char s

-- Principal.Zero
abbrev pub is_zero : Operator → Bool
is_zero p = p.subject == ""

-- PrincipalMiddleware
unfoldable pub principal_middleware {ℓ} : {A : Type ℓ} → Handler A → Handler A
unfolding is_principal trim_space
principal_middleware next r =
    let subject = trim_space r.actor_header in
    let role = trim_space r.actor_role_header in
    if subject == "" && role == ""
    then next r
    else if not (is_principal subject)
    then refused 400 "validation_failed"
    else if not (role == "") && not (is_principal role)
    then refused 400 "validation_failed"
    else next (record r { operator = record { subject = subject; role = role } })

-- RequireRole
unfoldable pub require_role {ℓ} : {A : Type ℓ} → String → Handler A → Handler A
require_role role next r =
    if is_zero r.operator || r.operator.role == role then next r else refused 403 "forbidden"

abbrev max_inbound_request_id_len : ℕ
max_inbound_request_id_len = 64

is_request_id_char : Char → Bool
unfolding is_alphanumeric contains_code
is_request_id_char c = is_alphanumeric c || contains_code (code c) (b'-' ∷ b'_' ∷ b'.' ∷ b':' ∷ [])

-- sanitizeRequestID
unfoldable pub sanitize_request_id : String → String
unfolding trim_space text_length all_chars is_request_id_char
sanitize_request_id raw =
    let id = trim_space raw in
    if id == "" || ltb max_inbound_request_id_len (text_length id)
    then ""
    else if all_chars is_request_id_char id
    then id
    else ""

is_principal-empty : is_principal "" ≡ false
unfolding is_principal
is_principal-empty = refl

is_principal-named : (s : String) → is_principal s ≡ true → (s == "") ≡ false
is_principal-named s h = elim (Bool-cases (s == "")) [
  | inl e ↦
      let q = (eq_iff s "").0 e in
      let p : is_principal "" ≡ true = rw q at h in cc is_principal-empty
  | inr e ↦ e
]

module _ {ℓ} {A : Type ℓ} (role : String) (next : Handler A) where
  require_role-served :
      (r : Request) (a : A)
      → require_role role next r ≡ served a
      → (is_zero r.operator || r.operator.role == role) ≡ true
  require_role-served r a h = elim (Bool-cases (is_zero r.operator || r.operator.role == role)) [
    | inl e ↦ e
    | inr e ↦ let q : refused 403 "forbidden" ≡ served a = unfold require_role in (rw e at h) in cc
  ]

-- A request that asserts anything about its operator reaches a handler behind a role only if its
-- actor is in the accepted form and its role, trimmed, is that role; one that asserts nothing reaches
-- it with whatever operator it had, as long as that is none or holds the role.
pub require_role_guards {ℓ} :
    {A : Type ℓ} (role : String) (next : Handler A) (r : Request) (a : A)
    → principal_middleware (require_role role next) r ≡ served a
    → ((trim_space r.actor_header ≡ "")
        × (trim_space r.actor_role_header ≡ "")
        × (is_zero r.operator || r.operator.role == role) ≡ true)
      ⊎ ((is_principal (trim_space r.actor_header) ≡ true)
          × (trim_space r.actor_role_header ≡ role))
require_role_guards role next r a h =
    let subject = trim_space r.actor_header in
    let held = trim_space r.actor_role_header in
    elim (Bool-cases (subject == "" && held == "")) [
      | inl silent ↦
          let passed : require_role role next r ≡ served a =
            unfold principal_middleware in (rw silent at h) in
          inl (
            (eq_iff subject "").0 (ground arith),
            (eq_iff held "").0 (ground arith),
            require_role-served role next r a passed,
          )
      | inr speaks ↦ elim (Bool-cases (is_principal subject)) [
        | inr bad ↦
            let q : refused 400 "validation_failed" ≡ served a =
              unfold principal_middleware in (rw (speaks, bad) at h) in
            cc
        | inl good ↦ elim (Bool-cases (not (held == "") && not (is_principal held))) [
          | inl bad_role ↦
              let q : refused 400 "validation_failed" ≡ served a =
                unfold principal_middleware in (rw (speaks, good, bad_role) at h) in
              cc
          | inr fine ↦
              let asserted : Request = record r {
                operator = record { subject = subject; role = held };
              } in
              let passed : require_role role next asserted ≡ served a =
                unfold principal_middleware in (rw (speaks, good, fine) at h) in
              let holds = require_role-served role next asserted a passed in
              let named = is_principal-named subject good in
              inr (good, (eq_iff held role).0 (ground (arith, holds, named)))
        ]
      ]
    ]
