-- ===== src/Http/Server/Posting.antt =====
-- A POST that makes a short link, through the whole server (internal/http/server).
use shorty.Base.{
  Str, str, ℕ, ◌≡◌, ◌≢◌, refl, ap, ◌∙◌, ◌||◌, Option, none, some, List, [], ◌∷◌, str_eq-ne,
  Bool-cases, inl, inr, arith,
}
use shorty.Errors.{
  Err, Result, ok, err, is, model_err, conflict, shortener_err, invalid_url, unsupported_url_scheme,
}
use shorty.Model.{User}
use shorty.Session.{Context, get_user_and_req_id}
use shorty.Auth.{create_or_parse_user, create_user_and_token, decided, with_session}
use shorty.Auth.{new_token}
use shorty.Auth.Sessions.{IsLibrary, IsToken, create_user_and_token-IsToken}
use shorty.Auth as A
use shorty.Shortener.{World, shorten}
use shorty.Http.Writer.{Wire, Encoder, Action, set_header, write_header, write}
use shorty.Http.Writer.Statuses.{sent_code, last_code}
use shorty.Http.Replies.{Run, run, fail, content_type_plain, answer_shorten, shorten_code}
use shorty.Http.Handlers.{read_body, with_user, with_body, handle_shorten_plain}
use shorty.Http.Handlers.Answers.{client_status-run}
use shorty.Http.Server.{
  Parts, HttpRequest, Response, wrapped, auth_then, serve_http, routes, mounted_routes, mount_route,
  plain_route, response_status, wrapped_run, handle, to_shorten_plain,
}
use shorty.Auth.Issuing.{Generates}
use shorty.Http.Server.Steps.{identified_as, serve_mounted}

-- Tokens that are made are not empty.
abbrev pub Signs : A.Library → Type 0
Signs lib = (secret tok : Str) (c : A.Claims) → lib.signed_string secret c ≡ ok tok → tok ≢ str ""

abbrev pub session_context : User → Str → Context
session_context u id = record { user = some u; req_id = some id }

-- The response to a POST that made this link for a new user with this token.
abbrev pub created_response : (Str → Str) → Str → Str → Response
created_response cookie_text tok short = wrapped (
    run (
      set_header (str "Set-Cookie") (cookie_text tok)
      ∷ set_header (str "Content-Type") content_type_plain
      ∷ write_header 201
      ∷ write short
      ∷ []))

abbrev with_header : Str → Run → Run
with_header t a = record a { actions = set_header (str "Set-Cookie") t ∷ a.actions }

module _ (net_write : Wire → Str → ℕ × Option Err) (encoder : Encoder) (accept_encoding : Str) where
  pub run_status :
      (actions : List Action)
      → response_status net_write encoder accept_encoding (wrapped (run actions))
        ≡ some (sent_code (last_code actions 0))
  unfolding response_status
  run_status actions = client_status-run net_write encoder accept_encoding actions

  other_code :
      (n : ℕ) (actions : List Action)
      → n ≢ 201
      → sent_code (last_code actions 0) ≡ n
      → response_status net_write encoder accept_encoding (wrapped (run actions)) ≢ some 201
  other_code n actions other sent h = other (cc (run_status actions, sent, h))

  failed_status : response_status net_write encoder accept_encoding (wrapped fail) ≢ some 201
  failed_status = other_code 500 (write_header 500 ∷ []) (λ e. omega arith) refl

  not_created :
      (short : Str) (e : Err) (t : Str)
      → response_status net_write encoder accept_encoding
          (wrapped (with_header t (answer_shorten content_type_plain ok (short, some e))))
        ≢ some 201
  unfolding answer_shorten shorten_code
  not_created short e t h =
      elim (Bool-cases
        (is (shortener_err invalid_url) e || is (shortener_err unsupported_url_scheme) e)) [
          | inl a ↦ elim (Bool-cases (is (model_err conflict) e)) [
            | inl b ↦ other_code 400 _ (λ e. omega arith) refl (rw (a, b) at h)
            | inr b ↦ other_code 400 _ (λ e. omega arith) refl (rw (a, b) at h)
          ]
          | inr a ↦ elim (Bool-cases (is (model_err conflict) e)) [
            | inl b ↦ other_code 409 _ (λ e. omega arith) refl (rw (a, b) at h)
            | inr b ↦ other_code 500 _ (λ e. omega arith) refl (rw (a, b) at h)
          ]
        ]

  module _ {S : Type 0} (p : Parts S) where
    -- What has happened where a POST was answered by 201.
    pub record IsPosted (url : Str) (now m : ℕ) (w : World S) (a : Response) (w' : World S)
        : Type 0 where
      pub user : User
      pub tok : Str
      pub made : (create_user_and_token p.auth p.secret now m).0 ≡ ok (user, tok)
      pub claims : A.Claims
      pub signed : p.auth.signed_string p.secret claims ≡ ok tok
      pub full : tok ≢ str ""
      pub short : Str
      pub shortened : (shorten p.st p.intn p.svc p.parse user url w).0 ≡ (short, none)
      pub response : a ≡ created_response p.cookie_text tok short
      pub state : w' ≡ (shorten p.st p.intn p.svc p.parse user url w).1

    shortened_IsPosted :
        (url : Str) (now m : ℕ) (w : World S) (user : User) (tok : Str)
        (o : (Str × Option Err) × World S)
        → (create_user_and_token p.auth p.secret now m).0 ≡ ok (user, tok)
        → ((c : A.Claims) × (p.auth.signed_string p.secret c ≡ ok tok))
        → tok ≢ str ""
        → shorten p.st p.intn p.svc p.parse user url w ≡ o
        → response_status net_write encoder accept_encoding
            (wrapped (with_header (p.cookie_text tok) (answer_shorten content_type_plain ok o.0)))
          ≡ some 201
        → IsPosted url now m w
            (wrapped (with_header (p.cookie_text tok) (answer_shorten content_type_plain ok o.0)))
            o.1
    unfolding answer_shorten shorten_code
    shortened_IsPosted url now m w user tok ((short, some e), w') made signed full h status =
        absurd (not_created short e (p.cookie_text tok) status)
    shortened_IsPosted url now m w user tok ((short, none), w') made (c, signed) full h status =
        record {
          user = user;
          tok = tok;
          made = made;
          claims = c;
          signed = signed;
          full = full;
          short = short;
          shortened = rw h refl;
          response = refl;
          state = rw h refl;
        }

    full_token :
        (now m : ℕ) (user : User) (tok : Str)
        → IsLibrary p.auth
        → Signs p.auth
        → (create_user_and_token p.auth p.secret now m).0 ≡ ok (user, tok)
        → (tok ≢ str "") × ((c : A.Claims) × (p.auth.signed_string p.secret c ≡ ok tok))
    unfolding IsToken new_token
    full_token now m user tok is_library signs made =
        let t = create_user_and_token-IsToken p.auth is_library p.secret now 0 m user tok made in
        (signs p.secret tok _ t.2, (_, t.2))

    handle_plain :
        (r : HttpRequest) (user : User) (id url : Str) (w : World S)
        → read_body p.lib r.request ≡ ok url
        → handle p r to_shorten_plain (session_context user id) w ≡ (
          answer_shorten content_type_plain ok (shorten p.st p.intn p.svc p.parse user url w).0,
          (shorten p.st p.intn p.svc p.parse user url w).1,
        )
    unfolding handle_shorten_plain with_user with_body get_user_and_req_id
    handle_plain r user id url w h = rw h refl

    -- The rest of the chain, once it is known what the authentication makes.
    abbrev chain_of : HttpRequest → Str → World S → Result (User × Str) × ℕ → Response × World S × ℕ
    chain_of r id w c =
        wrapped_run p
          (auth_then p (decided (identified_as id) c) w (λ ctx. handle p r to_shorten_plain ctx w))

    chain_IsPosted :
        (r : HttpRequest) (id url : Str) (w : World S) (m : ℕ) (c : Result (User × Str) × ℕ)
        → IsLibrary p.auth
        → Signs p.auth
        → read_body p.lib r.request ≡ ok url
        → create_user_and_token p.auth p.secret r.now m ≡ c
        → response_status net_write encoder accept_encoding (chain_of r id w c).0 ≡ some 201
        → IsPosted url r.now m w (chain_of r id w c).0 (chain_of r id w c).1
    unfolding with_session
    chain_IsPosted r id url w m (err e, k) is_library signs body made status =
        absurd (failed_status status)
    chain_IsPosted r id url w m (ok (user, tok), k) is_library signs body made status =
        let made' : (create_user_and_token p.auth p.secret r.now m).0 ≡ ok (user, tok) =
          rw made refl in
        let (full, signed) = full_token r.now m user tok is_library signs made' in
        rw (str_eq-ne tok (str "") full, handle_plain r user id url w body)
          (shortened_IsPosted url r.now m w user tok (shorten p.st p.intn p.svc p.parse user url w)
            made' signed full refl
            (rw (str_eq-ne tok (str "") full, handle_plain r user id url w body) at status))

    pub without_cookie :
        (now m : ℕ) (cookie : Option Str)
        → cookie ≡ none
        → create_or_parse_user p.auth p.secret now cookie m
          ≡ create_user_and_token p.auth p.secret now m
    unfolding create_or_parse_user
    without_cookie now m cookie h = rw h refl

    -- A request without a cookie that chi leads to ShortenPlain, with a body that is read, and that
    -- is answered by 201.
    pub posted :
        (r : HttpRequest) (w : World S) (n : ℕ) (url : Str)
        → Generates p.auth
        → IsLibrary p.auth
        → Signs p.auth
        → p.chi.find routes r.method r.request.path ≡ some mount_route
        → p.chi.find mounted_routes r.method r.request.path ≡ some plain_route
        → r.cookie ≡ none
        → read_body p.lib r.request ≡ ok url
        → response_status net_write encoder accept_encoding (serve_http p r w n).0 ≡ some 201
        → (m : ℕ) × IsPosted url r.now m w (serve_http p r w n).0 (serve_http p r w n).1
    posted r w n url works is_library signs found found_below no_cookie body status =
        let (id, m, served) = serve_mounted p r w n plain_route works found found_below in
        let served' = served ∙ ap (chain_of r id w) (without_cookie r.now m r.cookie no_cookie) in
        (
          m,
          rw served' (
              chain_IsPosted r id url w m (create_user_and_token p.auth p.secret r.now m) is_library
                signs body refl (rw served' at status)),
        )
