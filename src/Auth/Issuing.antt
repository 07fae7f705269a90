-- ===== src/Auth/Issuing.antt =====
-- Where the authentication never fails (internal/auth/auth.go, internal/grpc/interceptors/auth,
-- internal/http/middleware/requestid, internal/grpc/interceptors/requestid).
use shorty.Base.{Str, str, ℕ, suc, ◌≡◌, refl, Bool, true, Option, none, some, List, [], ◌∷◌}
use shorty.Errors.{Result, ok, err}
use shorty.Model.{User}
use shorty.Session.{Context, set_user_context, set_request_id}
use shorty.Auth.{
  Claims, Library, new_user, new_token, create_user_and_token, get_user_from_jwt, parsed_or,
  create_or_parse_user_from_jwt_string, create_or_parse_user, calls, with_session, decided,
  cookie_of, auth_intercept, with_id, request_id_serve_http, request_id_intercept, trusted_id,
  non_empty_header,
}

-- The UUID generator works.
abbrev pub Generates : Library → Type 0
Generates lib = (n : ℕ) → (bytes : Str) × (lib.new_v4 n ≡ ok bytes)

-- Every token is signed.
abbrev pub SignsAll : Library → Type 0
SignsAll lib = (secret : Str) (c : Claims) → (tok : Str) × (lib.signed_string secret c ≡ ok tok)

module _ (lib : Library) (generates : Generates lib) where
  with_id_calls :
      (ctx : Context) (given : Option Str) (n : ℕ)
      → (id : Str) × (m : ℕ) × (with_id lib ctx given n ≡ (calls (set_request_id ctx id) none, m))
  with_id_calls ctx (some id) n = (id, n, refl)
  with_id_calls ctx none n = let (bytes, h) = generates n in (lib.text_of bytes, suc n, rw h refl)

  pub request_id_serve_http_calls :
      (trust : Bool) (ctx : Context) (header : Str) (n : ℕ)
      → (id : Str) × (m : ℕ) × (request_id_serve_http lib trust ctx header n
          ≡ (calls (set_request_id ctx id) none, m))
  unfolding request_id_serve_http
  request_id_serve_http_calls trust ctx header n =
      with_id_calls ctx (trusted_id trust (non_empty_header header)) n

  pub request_id_intercept_calls :
      (trust : Bool) (ctx : Context) (given : Option Str) (n : ℕ)
      → (id : Str) × (m : ℕ) × (request_id_intercept lib trust ctx given n
          ≡ (calls (set_request_id ctx id) none, m))
  unfolding request_id_intercept
  request_id_intercept_calls trust ctx given n = with_id_calls ctx (trusted_id trust given) n

  module _ (signs : SignsAll lib) (secret : Str) (now : ℕ) where
    -- A result of the authentication that is a user.
    abbrev IsMade : Result (User × Str) × ℕ → Type 0
    IsMade made = (u : User) × (tok : Str) × (m : ℕ) × (made ≡ (ok (u, tok), m))

    new_token_signs : (u : User) → (tok : Str) × (new_token lib secret now u ≡ ok tok)
    unfolding new_token
    new_token_signs u = signs secret _

    create_user_and_token-IsMade : (n : ℕ) → IsMade (create_user_and_token lib secret now n)
    unfolding create_user_and_token new_user
    create_user_and_token-IsMade n =
        let (bytes, h) = generates n in
        let u : User = record { id = lib.raw_url_encoding bytes; new = true } in
        let (tok, h') = new_token_signs u in (u, tok, suc n, rw h (rw h' refl))

    parsed_or-IsMade :
        (r : Result User) (n : ℕ)
        → IsMade (parsed_or lib secret now r (create_user_and_token lib secret now n) n)
    parsed_or-IsMade (ok u) n = (u, str "", n, refl)
    parsed_or-IsMade (err e) n = create_user_and_token-IsMade n

    decided_calls :
        (ctx : Context) (made : Result (User × Str) × ℕ)
        → IsMade made
        → (u : User) × (tok : Option Str) × (m : ℕ) × (decided ctx made
            ≡ (calls (set_user_context ctx u) tok, m))
    unfolding with_session
    decided_calls ctx made (u, tok, m, h) = (u, cookie_of tok, m, rw h refl)

    pub auth_intercept_calls :
        (ctx : Context) (vals : List Str) (n : ℕ)
        → (u : User) × (tok : Option Str) × (m : ℕ) × (auth_intercept lib secret now ctx
              (some vals)
              n
            ≡ (calls (set_user_context ctx u) tok, m))
    unfolding auth_intercept create_or_parse_user create_or_parse_user_from_jwt_string
    auth_intercept_calls ctx [] n = decided_calls ctx _ (create_user_and_token-IsMade n)
    auth_intercept_calls ctx (val ∷ vals) n =
        decided_calls ctx _ (parsed_or-IsMade (get_user_from_jwt lib secret now val) n)
