-- ===== src/Auth.antt =====
-- internal/auth/auth.go and user.New of internal/user/user.go, and their use in
-- internal/http/middleware/auth and internal/grpc/interceptors/auth; the request ids of
-- internal/http/middleware/requestid and internal/grpc/interceptors/requestid. Times are numbers of
-- nanoseconds; `new_v4 n` is the result of the n-th call of the UUID generator.

pub mod Sessions
pub mod Issuing
pub mod Tests
use shorty.Base.{
  Str, str, ℕ, suc, ◌+◌, ◌*◌, ◌^◌, Bool, true, not, Option, none, some, List, [], ◌∷◌, str_eq, ltb,
  if◌then◌else◌,
}
use shorty.Errors.{Result, ok, err, message, wrap}
use shorty.Model.{User, new_with_id}
use shorty.Session.{Context, set_user_context, set_request_id}

pub record Claims : Type 0 where
  pub expires_at : Option ℕ
  pub user_id : Str

-- A token that the library has parsed: whether it is valid, and its claims, if they are of the type
-- Claims.
pub record Token : Type 0 where
  pub valid : Bool
  pub claims : Option Claims

-- What the code uses of golang-jwt with an HMAC method, of the UUID generator and of base64.
pub record Library : Type 0 where
  -- ParseWithClaims at this time, and SignedString
  pub parse_with_claims : Str → ℕ → Str → Result Token
  pub signed_string : Str → Claims → Result Str
  -- NewNumericDate
  pub numeric_date : ℕ → ℕ
  -- NewV4, as a string of bytes and as text, and RawURLEncoding
  pub new_v4 : ℕ → Result Str
  pub text_of : Str → Str
  pub raw_url_encoding : Str → Str

-- 24 * time.Hour
abbrev pub default_jwt_cookie_expiration : ℕ
default_jwt_cookie_expiration = 86400 * 10 ^ 9

-- What a middleware does: it calls the next handler with this context, and with this cookie set, if
-- any; or it answers by an internal error.
pub data Decision : Type 0 where
  calls : Context → Option Str → Decision
  fails : Decision

abbrev pub cookie_of : Str → Option Str
cookie_of token = if str_eq token (str "") then none else some token

-- The end of ServeHTTP of the auth middleware, and of the interceptor where the header can be sent.
unfoldable pub with_session : Context → Result (User × Str) → Decision
with_session ctx (err e) = fails
with_session ctx (ok (u, token)) = calls (set_user_context ctx u) (cookie_of token)

abbrev pub known : Option Str → Decision × ℕ → ℕ → Decision × ℕ
known none next n = (fails, n)
known (some id) next n = next

abbrev pub decided : Context → Result (User × Str) × ℕ → Decision × ℕ
decided ctx (r, n) = (with_session ctx r, n)

abbrev pub trusted_id : Bool → Option Str → Option Str
trusted_id trust given = if trust then given else none

abbrev pub non_empty_header : Str → Option Str
non_empty_header header = if str_eq header (str "") then none else some header

-- A result, with the number of calls of the generator after it.
module _ (lib : Library) where
  abbrev pub new_user_of : Result Str → Result User
  new_user_of (err e) = err (wrap (str "cannot generate new uuid") e)
  new_user_of (ok bytes) = ok (record { id = lib.raw_url_encoding bytes; new = true })

  -- user.New
  unfoldable pub new_user : ℕ → Result User × ℕ
  new_user n = (new_user_of (lib.new_v4 n), suc n)

  module _ (jwt_secret : Str) (now : ℕ) where
    -- newToken and createJWT
    unfoldable pub new_token : User → Result Str
    new_token u = lib.signed_string jwt_secret (record {
      expires_at = some (lib.numeric_date (now + default_jwt_cookie_expiration));
      user_id = u.id;
    })

    abbrev user_and_token : User → Result Str → Result (User × Str)
    user_and_token u (err e) = err (
        wrap (str "cannot create session cookie for user")
          (wrap (str "cannot create auth token") (wrap (str "cannot sign jwt token") e)))
    user_and_token u (ok token) = ok (u, token)

    abbrev created : Result User → Result (User × Str)
    created (err e) = err (wrap (str "cannot create new user") e)
    created (ok u) = user_and_token u (new_token u)

    unfoldable pub create_user_and_token : ℕ → Result (User × Str) × ℕ
    create_user_and_token n = let (r, n') = new_user n in (created r, n')

    abbrev claimed_user : Option ℕ → Str → Result User
    claimed_user none id = err (message (str "expiration claim is missing"))
    claimed_user (some at) id =
        if ltb at now
        then err (message (str "token expired"))
        else if str_eq id (str "")
        then err (message (str "user id is empty"))
        else ok (new_with_id id)

    abbrev claims_user : Option Claims → Result User
    claims_user none = err (message (str "token does not have claims"))
    claims_user (some c) = claimed_user c.expires_at c.user_id

    abbrev token_user : Result Token → Result User
    token_user (err e) = err (wrap (str "cannot parse token from session cookie") e)
    token_user (ok t) =
        if not t.valid then err (message (str "token is not valid")) else claims_user t.claims

    pub get_user_from_jwt : Str → Result User
    get_user_from_jwt signed = token_user (lib.parse_with_claims jwt_secret now signed)

    abbrev parsed_or : Result User → Result (User × Str) × ℕ → ℕ → Result (User × Str) × ℕ
    parsed_or (ok u) made n = (ok (u, str ""), n)
    parsed_or (err e) made n = made

    pub create_or_parse_user_from_jwt_string : Str → ℕ → Result (User × Str) × ℕ
    create_or_parse_user_from_jwt_string usr n =
        parsed_or (get_user_from_jwt usr) (create_user_and_token n) n

    -- createOrParseUserFromRequest and createOrParseUserFromMetadata: the cookie, or the first value
    -- of the metadata, if there is one.
    unfoldable pub create_or_parse_user : Option Str → ℕ → Result (User × Str) × ℕ
    create_or_parse_user none n = create_user_and_token n
    create_or_parse_user (some usr) n = create_or_parse_user_from_jwt_string usr n

  -- ServeHTTP of the auth middleware
  unfoldable pub auth_serve_http : Str → ℕ → Context → Option Str → ℕ → Decision × ℕ
  auth_serve_http jwt_secret now ctx cookie n =
      known ctx.req_id (decided ctx (create_or_parse_user jwt_secret now cookie n)) n

  -- The auth interceptor; `none` is missing metadata.
  unfoldable pub auth_intercept : Str → ℕ → Context → Option (List Str) → ℕ → Decision × ℕ
  auth_intercept jwt_secret now ctx none n = (fails, n)
  auth_intercept jwt_secret now ctx (some []) n =
      decided ctx (create_or_parse_user jwt_secret now none n)
  auth_intercept jwt_secret now ctx (some (val ∷ vals)) n =
      decided ctx (create_or_parse_user jwt_secret now (some val) n)

  abbrev generated : Context → Result Str → ℕ → Decision × ℕ
  generated ctx (err e) n = (fails, n)
  generated ctx (ok u) n = (calls (set_request_id ctx (lib.text_of u)) none, n)

  abbrev pub with_id : Context → Option Str → ℕ → Decision × ℕ
  with_id ctx none n = generated ctx (lib.new_v4 n) (suc n)
  with_id ctx (some id) n = (calls (set_request_id ctx id) none, n)

  -- ServeHTTP of the request id middleware; `header` is empty where X-Request-ID is missing.
  unfoldable pub request_id_serve_http : Bool → Context → Str → ℕ → Decision × ℕ
  request_id_serve_http trust ctx header n =
      with_id ctx (trusted_id trust (non_empty_header header)) n

  -- The request id interceptor, with the first value of the metadata, if there is one.
  unfoldable pub request_id_intercept : Bool → Context → Option Str → ℕ → Decision × ℕ
  request_id_intercept trust ctx given n = with_id ctx (trusted_id trust given) n
