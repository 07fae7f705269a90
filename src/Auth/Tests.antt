-- ===== src/Auth/Tests.antt =====
-- A library whose tokens are the time of expiration and the user id, and two requests with it.
use shorty.Base.{
  Str, str, ℕ, ◌≡◌, ◌<◌, refl, true, Option, none, some, [], ◌∷◌, arith, ltb, if◌then◌else◌,
}
use shorty.Errors.{Result, ok, err, message}
use shorty.Model.{User, new_with_id}
use shorty.Session.{Context}
use shorty.Auth.{
  Token, Library, create_user_and_token, new_user, new_token, create_or_parse_user,
  request_id_serve_http, request_id_intercept, default_jwt_cookie_expiration,
}
use shorty.Auth.Sessions.{
  IsLibrary, session_kept, IsComplete, then_auth, then_auth_intercept, chain-IsComplete,
}

abbrev pub sign : Option ℕ → Str → Result Str
sign none id = err (message (str "no expiration"))
sign (some at) id = ok (at ∷ id)

abbrev pub parse : ℕ → Str → Result Token
parse t [] = err (message (str "token is malformed"))
parse t (at ∷ id) =
    if ltb t at
    then ok (record { valid = true; claims = some (record { expires_at = some at; user_id = id }) })
    else err (message (str "token is expired"))

abbrev pub library : Library
library = record {
  parse_with_claims = λ secret t tok. parse t tok;
  signed_string = λ secret c. sign c.expires_at c.user_id;
  numeric_date = λ t. t;
  new_v4 = λ n. ok (n ∷ []);
  text_of = λ b. b;
  raw_url_encoding = λ b. b'u' ∷ b;
}

parse_of_sign :
    (o : Option ℕ) (id tok : Str) (at t : ℕ)
    → sign o id ≡ ok tok
    → o ≡ some at
    → t < at
    → parse t tok
      ≡ ok (record { valid = true; claims = some (record { expires_at = o; user_id = id }) })
parse_of_sign none id tok at t s e lt = cc s
parse_of_sign (some at') id [] at t s e lt = cc s
parse_of_sign (some at') id (a ∷ rest) at t s e lt = ground (arith, s, e, lt)

pub library-IsLibrary : IsLibrary library
library-IsLibrary = record {
  parses =
      λ secret tok bytes at t s fits lt. parse_of_sign (some at) (b'u' ∷ bytes) tok at t s refl lt;
  not_empty = λ n bytes h e. cc e;
}

abbrev new_one : User
new_one = record { id = b'u' ∷ 5 ∷ []; new = true }

abbrev token : Str
token = default_jwt_cookie_expiration ∷ b'u' ∷ 5 ∷ []

first_request : (create_or_parse_user library (str "s") 0 (some (str "")) 5).0 ≡ ok (new_one, token)
unfolding create_or_parse_user shorty.Auth.create_or_parse_user_from_jwt_string
    shorty.Auth.get_user_from_jwt create_user_and_token new_user new_token
first_request = refl

session_kept_example :
    (true ≡ true)
    × (create_or_parse_user library (str "s") 1000 (some token) 9
        ≡ (ok (new_with_id (b'u' ∷ 5 ∷ []), str ""), 9))
session_kept_example =
    session_kept library library-IsLibrary (str "s") 0 1000 (some (str "")) 5 9 new_one token
      first_request (λ e. cc e) (omega arith) (omega arith)

abbrev context : Context
context = record { user = none; req_id = none }

chain-IsComplete_example :
    IsComplete
      (then_auth library
        (str "s")
        0
        none
        (request_id_serve_http library true context (str "r") 5)).0
    × IsComplete
        (then_auth_intercept library
          (str "s")
          0
          (some [])
          (request_id_intercept library true context none 5)).0
chain-IsComplete_example =
    chain-IsComplete library (str "s") 0 true context (str "r") none none (some []) 5
