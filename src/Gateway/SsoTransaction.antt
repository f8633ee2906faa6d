-- ===== src/Gateway/SsoTransaction.antt =====
-- apps/gateway/src/sso/sso-transaction.service.ts: the cookie that binds a login at an identity
-- provider to the browser that started it. jsonwebtoken is a parameter.
use fullstack_starter.Prelude.{
  ℕ, ◌*◌, String, ◌≡◌, refl, sym, ap, ◌∙◌, Bool, true, false, Bool-cases, inl, inr, Option, none,
  some, or_else, if◌then◌else◌, is_truthy, present, ◌==◌,
}
use fullstack_starter.Async.{
  Async, Result, ok, error, pure, throw, reads, new_error, ◌>>=◌, and_then-inv, ok-injective,
}

pub record SsoTransaction : Type 0 where
  pub provider : String
  pub state : String
  pub nonce : String
  pub code_verifier : String
  pub return_to : String

-- the payload of the token, of which every other token has another `typ`
pub record SsoTransactionPayload : Type 0 where
  pub transaction : SsoTransaction
  pub typ : Option String

-- `jwt.sign(payload, secret, { expiresIn })` and `jwt.verify(token, secret)`, both with HS256
pub record TransactionJwt (W : Type 0) : Type 0 where
  pub sign : SsoTransactionPayload → String → ℕ → W → Result String
  pub verify : String → String → W → Result SsoTransactionPayload

-- the attributes of the cookie; `max_age` is `none` where it is cleared
pub record CookieOptions : Type 0 where
  pub http_only : Bool
  pub path : String
  pub same_site : String
  pub secure : Bool
  pub max_age : Option ℕ

-- the environment: SSO_STATE_SECRET, JWT_REFRESH_SECRET, and whether NODE_ENV is production
pub record SsoEnv : Type 0 where
  pub sso_state_secret : Option String
  pub jwt_refresh_secret : Option String
  pub production : Bool

-- what the response does to the cookie `sso_tx`
pub data TransactionCookie : Type 0 where
  set : String → CookieOptions → TransactionCookie
  clear : CookieOptions → TransactionCookie

unfoldable pub secret : SsoEnv → String
secret env = or_else env.sso_state_secret (or_else env.jwt_refresh_secret "")

unfoldable pub cookie_options : SsoEnv → Option ℕ → CookieOptions
cookie_options env max_age = record {
  http_only = true;
  path = "/";
  same_site = "lax";
  secure = env.production;
  max_age = max_age;
}

abbrev pub payload_of : SsoTransaction → SsoTransactionPayload
payload_of tx = record { transaction = tx; typ = some "sso_tx" }

abbrev pub of_type : SsoTransactionPayload → Option SsoTransaction
of_type decoded = elim decoded.typ [
  | none ↦ none
  | some typ ↦ if typ == "sso_tx" then some decoded.transaction else none
]

abbrev pub verified : Result SsoTransactionPayload → Option SsoTransaction
verified (ok decoded) = of_type decoded
verified (error e) = none

module _ {W : Type 0} (jwt : TransactionJwt W) (env : SsoEnv) where
  unfoldable pub set_transaction_cookie : SsoTransaction → Async W TransactionCookie
  unfolding secret cookie_options
  set_transaction_cookie tx =
      if is_truthy (secret env)
      then (do
        token ← reads (jwt.sign (payload_of tx) (secret env) 300)
        pure (set token (cookie_options env (some (300 * 1000)))))
      else throw (new_error "SSO state secret is not configured")

  unfoldable pub read_present : Option String → W → Option SsoTransaction
  unfolding secret
  read_present none w = none
  read_present (some token) w =
      if is_truthy (secret env) then verified (jwt.verify token (secret env) w) else none

  unfoldable pub read_transaction : Option String → W → Option SsoTransaction
  unfolding read_present
  read_transaction cookie w = read_present (present cookie) w

  unfoldable pub clear_transaction_cookie : TransactionCookie
  unfolding cookie_options
  clear_transaction_cookie = clear (cookie_options env none)

-- What the code relies on for a payload: a token that was signed with it is no empty text and, within
-- its time, verifies under the same secret with that payload.
pub record TransactionJwtLaws {W : Type 0} (jwt : TransactionJwt W) (in_time : W → W → Type 0)
    (payload : SsoTransactionPayload) : Type 0 where
  pub round_trip :
      (key token : String) (ttl : ℕ) (w later : W)
      → jwt.sign payload key ttl w ≡ ok token
      → in_time w later
      → jwt.verify token key later ≡ ok payload
  pub nonempty :
      (key token : String) (ttl : ℕ) (w : W)
      → jwt.sign payload key ttl w ≡ ok token
      → present (some token) ≡ some token

-- The token of a cookie that is set.
abbrev pub cookie_value : TransactionCookie → Option String
cookie_value (set token options) = some token
cookie_value (clear options) = none

module _ {W : Type 0} (jwt : TransactionJwt W) (env : SsoEnv) {in_time : W → W → Type 0} where
  -- The transaction that a login has put into the cookie is the one that its callback reads, field
  -- by field, while the token is in its time.
  pub read-set :
      (tx : SsoTransaction) (cookie : TransactionCookie) (w later : W)
      → TransactionJwtLaws jwt in_time (payload_of tx)
      → (set_transaction_cookie jwt env tx w).0 ≡ ok cookie
      → in_time w later
      → read_transaction jwt env (cookie_value cookie) later ≡ some tx
  unfolding set_transaction_cookie read_transaction read_present
  read-set tx cookie w later laws h timely = elim (Bool-cases (is_truthy (secret env))) [
    | inr missing ↦ cc (rw missing at h)
    | inl given ↦
        let (token, signed, _, rest) =
          and_then-inv (jwt.sign (payload_of tx) (secret env) 300 w, w) _ cookie (rw given at h) in
        let back = laws.round_trip (secret env) token 300 w later signed timely in
        ap (λ c. read_transaction jwt env (cookie_value c) later) (sym (ok-injective rest))
        ∙ rw (laws.nonempty (secret env) token 300 w signed) (rw given (ap verified back))
  ]

module _ {W : Type 0} (jwt : TransactionJwt W) (env : SsoEnv) where
  -- A cookie that holds a verified token of another type, such as a refresh token where both have one
  -- secret, is no transaction.
  pub read_transaction-other :
      (token typ : String) (payload : SsoTransactionPayload) (w : W)
      → jwt.verify token (secret env) w ≡ ok payload
      → payload.typ ≡ some typ
      → (typ == "sso_tx") ≡ false
      → read_transaction jwt env (some token) w ≡ none
  unfolding read_transaction read_present
  read_transaction-other token typ payload w good named other =
      let answered : read_present jwt env (some token) w ≡ none =
        elim (Bool-cases (is_truthy (secret env))) [
          | inr missing ↦ rw missing refl
          | inl given ↦ rw (given, good) (rw (named, other) refl)
        ] in
      elim (Bool-cases (is_truthy token)) [
        | inr blank ↦ rw blank refl
        | inl given ↦ rw given answered
      ]
