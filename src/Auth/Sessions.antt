-- ===== src/Auth/Sessions.antt =====
-- Users and request ids over several requests (internal/auth/auth.go,
-- internal/http/middleware/auth/auth.go, internal/http/middleware/requestid/requestid.go).
use shorty.Base.{
  Str, str, ℕ, ◌≡◌, ◌≢◌, ◌<◌, refl, sym, ap, ◌∙◌, Bool, true, Option, none, some, List, [], ◌∷◌,
  arith, str_eq-ne, ◌+◌, ◌^◌,
}
use shorty.Errors.{Result, ok, err}
use shorty.Model.{User, new_with_id, is_new}
use shorty.Session.{Context, get_user_and_req_id}
use shorty.Auth.{
  Claims, Library, new_user, new_user_of, new_token, user_and_token, created, create_user_and_token,
  get_user_from_jwt, parsed_or, create_or_parse_user_from_jwt_string, create_or_parse_user,
  Decision, calls, fails, with_session, known, auth_serve_http, auth_intercept, generated, with_id,
  request_id_serve_http, request_id_intercept, default_jwt_cookie_expiration,
}

-- The claims of the tokens that are made: a time in whole seconds, as NewNumericDate makes it of a
-- time of 63 bits, and the encoding of a UUID as the id.
abbrev claims_for : Library → ℕ → Str → Claims
claims_for lib at bytes = record {
  expires_at = some (lib.numeric_date at);
  user_id = lib.raw_url_encoding bytes;
}

-- What golang-jwt documents of a token with such claims, that it has signed itself and that has not
-- expired; and the encoding of a UUID is not empty.
pub record IsLibrary (lib : Library) : Type 0 where
  pub parses :
      (secret tok bytes : Str) (at t : ℕ)
      → lib.signed_string secret (claims_for lib at bytes) ≡ ok tok
      → at < 2 ^ 63
      → t < lib.numeric_date at
      → lib.parse_with_claims secret t tok
        ≡ ok (record { valid = true; claims = some (claims_for lib at bytes) })
  pub not_empty :
      (n : ℕ) (bytes : Str) → lib.new_v4 n ≡ ok bytes → lib.raw_url_encoding bytes ≢ str ""

module _ (lib : Library) (is_library : IsLibrary lib) (secret : Str) (now later : ℕ) where
  -- The token is the user's, and expires after `later`.
  unfoldable pub IsToken : User → Str → Type 0
  IsToken u tok =
      (u.new ≡ true)
      × (u.id ≢ str "")
      × (new_token lib secret now u ≡ ok tok)
      × ((bytes : Str) × (u.id ≡ lib.raw_url_encoding bytes))

  user_and_token-IsToken :
      (u : User) (r : Result Str) (v : User) (tok : Str)
      → new_token lib secret now u ≡ r
      → u.new ≡ true
      → u.id ≢ str ""
      → (bytes : Str) × (u.id ≡ lib.raw_url_encoding bytes)
      → user_and_token lib secret now u r ≡ ok (v, tok)
      → IsToken v tok
  unfolding IsToken
  user_and_token-IsToken u (err e) v tok h new_ id_ made e' = cc e'
  user_and_token-IsToken u (ok t) v tok h new_ id_ (bytes, made) e' =
      let same_user : u ≡ v = cc e' in
      let same_token : t ≡ tok = cc e' in
      (
        ap is_new (sym same_user) ∙ new_,
        (λ empty. id_ (ap (λ (x : User). x.id) same_user ∙ empty)),
        ap (new_token lib secret now) (sym same_user) ∙ h ∙ ap ok same_token,
        (bytes, ap (λ (x : User). x.id) (sym same_user) ∙ made),
      )

  created-IsToken :
      (n : ℕ) (r : Result Str) (v : User) (tok : Str)
      → lib.new_v4 n ≡ r
      → created lib secret now (new_user_of lib r) ≡ ok (v, tok)
      → IsToken v tok
  created-IsToken n (err e) v tok h e' = cc e'
  created-IsToken n (ok bytes) v tok h e' =
      user_and_token-IsToken (record { id = lib.raw_url_encoding bytes; new = true }) _ v tok refl
        refl (is_library.not_empty n bytes h) (bytes, refl) e'

  pub create_user_and_token-IsToken :
      (n : ℕ) (u : User) (tok : Str)
      → (create_user_and_token lib secret now n).0 ≡ ok (u, tok)
      → IsToken u tok
  unfolding create_user_and_token new_user
  create_user_and_token-IsToken n u tok h = created-IsToken n (lib.new_v4 n) u tok refl h

  parsed_or-IsToken :
      (r : Result User) (n : ℕ) (u : User) (tok : Str)
      → tok ≢ str ""
      → (parsed_or lib secret now r (create_user_and_token lib secret now n) n).0 ≡ ok (u, tok)
      → IsToken u tok
  parsed_or-IsToken (ok v) n u tok full h = absurd (full (cc h))
  parsed_or-IsToken (err e) n u tok full h = create_user_and_token-IsToken n u tok h

  create_or_parse_user-IsToken :
      (cookie : Option Str) (n : ℕ) (u : User) (tok : Str)
      → tok ≢ str ""
      → (create_or_parse_user lib secret now cookie n).0 ≡ ok (u, tok)
      → IsToken u tok
  unfolding create_or_parse_user create_or_parse_user_from_jwt_string
  create_or_parse_user-IsToken none n u tok full h = create_user_and_token-IsToken n u tok h
  create_or_parse_user-IsToken (some usr) n u tok full h =
      parsed_or-IsToken (get_user_from_jwt lib secret now usr) n u tok full h

  get_user_from_jwt-IsToken :
      (u : User) (tok : Str)
      → now + default_jwt_cookie_expiration < 2 ^ 63
      → later < lib.numeric_date (now + default_jwt_cookie_expiration)
      → IsToken u tok
      → get_user_from_jwt lib secret later tok ≡ ok (new_with_id u.id)
  unfolding IsToken get_user_from_jwt new_token
  get_user_from_jwt-IsToken u tok soon early (new_, full, signed, (bytes, made)) =
      let claims : Claims = record {
        expires_at = some (lib.numeric_date (now + default_jwt_cookie_expiration));
        user_id = u.id;
      } in
      let same : claims ≡ claims_for lib (now + default_jwt_cookie_expiration) bytes =
        ap
          (λ id. record {
            expires_at = some (lib.numeric_date (now + default_jwt_cookie_expiration));
            user_id = id;
          })
          made in
      let claimed =
        is_library.parses secret tok bytes _ later
          (ap (lib.signed_string secret) (sym same) ∙ signed) soon early
        ∙ ap (λ c. ok (record { valid = true; claims = some c })) (sym same) in
      rw (claimed, str_eq-ne u.id (str "") full) (ground arith)

  -- Let golang-jwt parse the tokens that it has signed, with an expiry as NewNumericDate makes it
  -- and an encoded UUID as the user id, until they expire, and let UUIDs have encodings that are
  -- not empty. Then a token, not empty, that a request was given for its new user, also where the
  -- request had an invalid one, identifies the same user, no longer as a new one, in every request
  -- before it expires; no other user or token is made there. The expiry is to fit into 63 bits of
  -- nanoseconds.
  pub session_kept :
      (cookie : Option Str) (n m : ℕ) (u : User) (tok : Str)
      → (create_or_parse_user lib secret now cookie n).0 ≡ ok (u, tok)
      → tok ≢ str ""
      → now + default_jwt_cookie_expiration < 2 ^ 63
      → later < lib.numeric_date (now + default_jwt_cookie_expiration)
      → (u.new ≡ true)
        × (create_or_parse_user lib secret later (some tok) m ≡ (ok (new_with_id u.id, str ""), m))
  unfolding create_or_parse_user create_or_parse_user_from_jwt_string IsToken
  session_kept cookie n m u tok h full soon early =
      let t = create_or_parse_user-IsToken cookie n u tok full h in
      (t.0, rw (get_user_from_jwt-IsToken u tok soon early t) refl)

-- The next handler, if it is called, finds a user and a request id in its context.
abbrev pub IsComplete : Decision → Type 0
IsComplete fails = Unit
IsComplete (calls ctx cookie) = (u : User) × (id : Str) × (get_user_and_req_id ctx ≡ ok (u, id))

-- The auth middleware behind that of the request ids.
abbrev pub then_auth : Library → Str → ℕ → Option Str → Decision × ℕ → Decision × ℕ
then_auth lib secret now cookie (fails, n) = (fails, n)
then_auth lib secret now cookie (calls ctx c, n) = auth_serve_http lib secret now ctx cookie n

-- The auth interceptor behind that of the request ids.
abbrev pub then_auth_intercept : Library → Str → ℕ → Option (List Str) → Decision × ℕ → Decision × ℕ
then_auth_intercept lib secret now md (fails, n) = (fails, n)
then_auth_intercept lib secret now md (calls ctx c, n) = auth_intercept lib secret now ctx md n

abbrev HasReqId : Decision → Type 0
HasReqId fails = Unit
HasReqId (calls ctx cookie) = (id : Str) × (ctx.req_id ≡ some id)

module _ (lib : Library) where
  with_session-IsComplete :
      (ctx : Context) (id : Str) (r : Result (User × Str))
      → ctx.req_id ≡ some id
      → IsComplete (with_session ctx r)
  unfolding with_session get_user_and_req_id
  with_session-IsComplete ctx id (err e) h = tt
  with_session-IsComplete ctx id (ok (u, tok)) h = (u, id, rw h refl)

  generated-HasReqId : (ctx : Context) (r : Result Str) (n : ℕ) → HasReqId (generated lib ctx r n).0
  generated-HasReqId ctx (err e) n = tt
  generated-HasReqId ctx (ok u) n = (lib.text_of u, refl)

  with_id-HasReqId : (ctx : Context) (o : Option Str) (n : ℕ) → HasReqId (with_id lib ctx o n).0
  with_id-HasReqId ctx none n = generated-HasReqId ctx (lib.new_v4 n) _
  with_id-HasReqId ctx (some id) n = (id, refl)

  known-IsComplete :
      (o : Option Str) (next : Decision × ℕ) (n : ℕ)
      → IsComplete next.0
      → IsComplete (known o next n).0
  known-IsComplete none next n h = tt
  known-IsComplete (some id) next n h = h

  then_auth-IsComplete :
      (secret : Str) (now : ℕ) (cookie : Option Str) (d : Decision × ℕ)
      → HasReqId d.0
      → IsComplete (then_auth lib secret now cookie d).0
  unfolding auth_serve_http
  then_auth-IsComplete secret now cookie (fails, n) h = tt
  then_auth-IsComplete secret now cookie (calls ctx c, n) (id, h) =
      known-IsComplete ctx.req_id _ n (with_session-IsComplete ctx id _ h)

  auth_intercept-IsComplete :
      (secret : Str) (now : ℕ) (ctx : Context) (id : Str) (md : Option (List Str)) (n : ℕ)
      → ctx.req_id ≡ some id
      → IsComplete (auth_intercept lib secret now ctx md n).0
  unfolding auth_intercept
  auth_intercept-IsComplete secret now ctx id none n h = tt
  auth_intercept-IsComplete secret now ctx id (some []) n h = with_session-IsComplete ctx id _ h
  auth_intercept-IsComplete secret now ctx id (some (val ∷ vals)) n h =
      with_session-IsComplete ctx id _ h

  then_auth_intercept-IsComplete :
      (secret : Str) (now : ℕ) (md : Option (List Str)) (d : Decision × ℕ)
      → HasReqId d.0
      → IsComplete (then_auth_intercept lib secret now md d).0
  then_auth_intercept-IsComplete secret now md (fails, n) h = tt
  then_auth_intercept-IsComplete secret now md (calls ctx c, n) (id, h) =
      auth_intercept-IsComplete secret now ctx id md n h

  -- Behind the two middlewares a handler that is called finds a user and a request id in its context,
  -- whatever the cookie and the headers are, and behind the two interceptors as well.
  pub chain-IsComplete :
      (secret : Str) (now : ℕ) (trust : Bool) (ctx : Context) (header : Str)
      (cookie given : Option Str) (md : Option (List Str)) (n : ℕ)
      → IsComplete
          (then_auth lib secret now cookie (request_id_serve_http lib trust ctx header n)).0
        × IsComplete
            (then_auth_intercept lib secret now md (request_id_intercept lib trust ctx given n)).0
  unfolding request_id_serve_http request_id_intercept
  chain-IsComplete secret now trust ctx header cookie given md n = (
    then_auth-IsComplete secret now cookie _ (with_id-HasReqId ctx _ n),
    then_auth_intercept-IsComplete secret now md _ (with_id-HasReqId ctx _ n),
  )
