-- ===== src/Grpc/Agreement.antt =====
-- The answers of the two transports to the same call (internal/grpc/server/handlers.go,
-- internal/http/server/handlers.go).
use shorty.Base.{
  Str, ℕ, ◌≡◌, refl, sym, ap, ◌∙◌, inl, inr, false, ◌||◌, Option, none, some, List, [], ◌∷◌,
  if◌then◌else◌, Bool-cases, Option-cases,
}
use shorty.Errors.{
  Err, Result, ok, err, is, model_err, not_found, deleted, conflict, resolver_err, invalid_path,
  shortener_err, invalid_url, unsupported_url_scheme, unauthorized, empty_batch, Outcome, returns,
  panics,
}
use shorty.Model.{User, Storage, is_new}
use shorty.Session.{Context, get_request_id, get_user_and_req_id}
use shorty.Resolver.{resolve}
use shorty.Shortener.{Service, ParsedUrl, World, shorten, delete_batch}
use shorty.Shortener.Deletion.{delete_batch_refused, delete_batch_queued}
use shorty.Http.Writer.{Wire, Encoder}
use shorty.Http.Replies.{
  content_type_plain, answer_resolve, resolve_code, answer_shorten, shorten_code,
}
use shorty.Http.Handlers.{
  Request, Library, read_body, with_req_id, with_user, with_body, handle_resolve,
  handle_shorten_plain,
}
use shorty.Http.Handlers.Answers.{client_status, client_status-run, client_status-panic}
use shorty.Grpc.{
  Code, invalid_argument, missing, failed_precondition, internal, unauthenticated,
  permission_denied, Reply, failed, resolve_error_code, resolve_reply, shorten_reply,
  delete_batch_reply, needs_req_id, needs_user, replying, grpc_resolve, grpc_shorten,
  grpc_delete_batch,
}

-- The HTTP status for a code of Resolve, and of a panic.
abbrev pub resolved_status : Outcome (Reply Str) → ℕ
resolved_status panics = 500
resolved_status (returns (a, none)) = 307
resolved_status (returns (a, some invalid_argument)) = 400
resolved_status (returns (a, some missing)) = 404
resolved_status (returns (a, some failed_precondition)) = 410
resolved_status (returns (a, some internal)) = 500
resolved_status (returns (a, some unauthenticated)) = 401
resolved_status (returns (a, some permission_denied)) = 403

-- The HTTP status for a code of Shorten.
abbrev pub shortened_status : Reply Str → ℕ
shortened_status (a, none) = 201
shortened_status (a, some invalid_argument) = 400
shortened_status (a, some missing) = 404
shortened_status (a, some failed_precondition) = 409
shortened_status (a, some internal) = 500
shortened_status (a, some unauthenticated) = 401
shortened_status (a, some permission_denied) = 403

module _ (net_write : Wire → Str → ℕ × Option Err) (encoder : Encoder) (accept_encoding : Str) where
  answer_resolve-status :
      (o : Outcome (Result Str))
      → client_status net_write encoder accept_encoding (answer_resolve o)
        ≡ some (resolved_status (resolve_reply o))
  unfolding answer_resolve resolve_reply resolve_code resolve_error_code
  answer_resolve-status panics = client_status-panic net_write encoder accept_encoding
  answer_resolve-status (returns (ok url)) = client_status-run net_write encoder accept_encoding _
  answer_resolve-status (returns (err e)) = elim (Bool-cases (is e (resolver_err invalid_path))) [
    | inl a ↦ rw a (client_status-run net_write encoder accept_encoding _)
    | inr a ↦ elim (Bool-cases (is e (model_err not_found))) [
      | inl b ↦ rw (a, b) (client_status-run net_write encoder accept_encoding _)
      | inr b ↦ elim (Bool-cases (is e (model_err deleted))) [
        | inl c ↦ rw (a, b, c) (client_status-run net_write encoder accept_encoding _)
        | inr c ↦ rw (a, b, c) (client_status-run net_write encoder accept_encoding _)
      ]
    ]
  ]

  answer_shorten-status :
      (r : Str × Option Err)
      → client_status net_write encoder accept_encoding (answer_shorten content_type_plain ok r)
        ≡ some (shortened_status (shorten_reply r))
  unfolding answer_shorten shorten_reply shorten_code
  answer_shorten-status (result, none) = client_status-run net_write encoder accept_encoding _
  answer_shorten-status (result, some e) =
      elim (Bool-cases
        (is (shortener_err invalid_url) e || is (shortener_err unsupported_url_scheme) e)) [
          | inl a ↦ elim (Bool-cases (is (model_err conflict) e)) [
            | inl b ↦ rw (a, b) (client_status-run net_write encoder accept_encoding _)
            | inr b ↦ rw (a, b) (client_status-run net_write encoder accept_encoding _)
          ]
          | inr a ↦ elim (Bool-cases (is (model_err conflict) e)) [
            | inl b ↦ rw (a, b) (client_status-run net_write encoder accept_encoding _)
            | inr b ↦ rw (a, b) (client_status-run net_write encoder accept_encoding _)
          ]
        ]

  module _ {S : Type 0} (st : Storage S) (intn : ℕ → ℕ → ℕ) (svc : Service)
      (parse : Str → Result ParsedUrl) (lib : Library) where
    -- Resolve has the HTTP status that stands for its gRPC code, whatever the context, the path and
    -- the storage: 307, 400 for InvalidArgument, 404 for NotFound, 410 for FailedPrecondition, and
    -- 500 for Internal and for a panic. Both leave the same state.
    pub resolve_transports :
        (ctx : Context) (r : Request) (w : World S)
        → (client_status net_write encoder accept_encoding
              (handle_resolve st intn svc parse lib ctx r w).0
            ≡ some (resolved_status (grpc_resolve st ctx r.path w).0))
          × ((handle_resolve st intn svc parse lib ctx r w).1 ≡ (grpc_resolve st ctx r.path w).1)
    unfolding handle_resolve grpc_resolve with_req_id needs_req_id
    resolve_transports ctx r w = elim (Option-cases (get_request_id ctx)) [
      | inl lacking ↦ rw lacking (client_status-run net_write encoder accept_encoding _, refl)
      | inr (id, given) ↦ rw given (answer_resolve-status (resolve st.get r.path w.store).0, refl)
    ]

    -- Where the body can be read, ShortenPlain has the HTTP status that stands for the gRPC code of
    -- Shorten with this body: 201, 400 for InvalidArgument, 409 for FailedPrecondition, and 500 for
    -- Internal. Both leave the same state.
    pub shorten_transports :
        (ctx : Context) (r : Request) (w : World S) (url : Str)
        → read_body lib r ≡ ok url
        → (client_status net_write encoder accept_encoding
              (handle_shorten_plain st intn svc parse lib ctx r w).0
            ≡ some (shortened_status (grpc_shorten st intn svc parse ctx url w).0))
          × ((handle_shorten_plain st intn svc parse lib ctx r w).1
              ≡ (grpc_shorten st intn svc parse ctx url w).1)
    unfolding handle_shorten_plain grpc_shorten with_user with_body needs_user
    shorten_transports ctx r w url h = rw h (go (get_user_and_req_id ctx))
      where
        go :
            (c : Result (User × Str))
            → (client_status net_write encoder accept_encoding
                  (with_user w c (λ u. with_body w (ok url) (λ body.
                    replying
                      (answer_shorten content_type_plain ok)
                      (shorten st intn svc parse u body w)))).0
                ≡ some (
                    shortened_status
                      (needs_user w
                        (failed internal)
                        c
                        (λ u. replying shorten_reply (shorten st intn svc parse u url w))).0))
              × ((with_user w c (λ u. with_body w (ok url) (λ body.
                    replying
                      (answer_shorten content_type_plain ok)
                      (shorten st intn svc parse u body w)))).1
                  ≡ (needs_user w
                      (failed internal)
                      c
                      (λ u. replying shorten_reply (shorten st intn svc parse u url w))).1)
        go (err e) = (client_status-run net_write encoder accept_encoding _, refl)
        go (ok (u, id)) = (answer_shorten-status (shorten st intn svc parse u url w).0, refl)

-- The code of DeleteBatch: Unauthenticated for a new user, InvalidArgument for an empty batch, and
-- none else, where the queue is not shutting down.
abbrev pub deleted_code : User → List Str → Option Code
deleted_code u [] = if is_new u then some unauthenticated else some invalid_argument
deleted_code u (short ∷ shorts) = if is_new u then some unauthenticated else none

grpc_delete_batch_user :
    {S : Type 0} (now : ℕ) (ctx : Context) (w : World S) (u : User) (id : Str) (shorts : List Str)
    → get_user_and_req_id ctx ≡ ok (u, id)
    → grpc_delete_batch now ctx shorts w ≡ replying delete_batch_reply (delete_batch now u shorts w)
unfolding grpc_delete_batch needs_user
grpc_delete_batch_user now ctx w u id shorts h = rw h refl

delete_batch_reply-refused :
    (u : User)
    → (delete_batch_reply (some (shortener_err (if is_new u then unauthorized else empty_batch)))).1
      ≡ (if is_new u then some unauthenticated else some invalid_argument)
unfolding delete_batch_reply
delete_batch_reply-refused u = elim (Bool-cases (is_new u)) [
  | inl h ↦ rw h refl
  | inr h ↦ rw h refl
]

delete_batch_reply-none : (o : Option Err) → o ≡ none → (delete_batch_reply o).1 ≡ none
unfolding delete_batch_reply
delete_batch_reply-none o h = rw h refl

-- With a user and a request id in the context, and while the queue is not shutting down, the gRPC
-- DeleteBatch gives a new user Unauthenticated, an empty batch InvalidArgument, and every other
-- call no error.
pub grpc_delete_batch-code :
    {S : Type 0} (now : ℕ) (ctx : Context) (w : World S) (u : User) (id : Str) (shorts : List Str)
    → get_user_and_req_id ctx ≡ ok (u, id)
    → w.flusher.shutdown ≡ false
    → (grpc_delete_batch now ctx shorts w).0.1 ≡ deleted_code u shorts
grpc_delete_batch-code now ctx w u id [] h open_ =
    rw (grpc_delete_batch_user now ctx w u id [] h, delete_batch_refused now u w [] (inr refl))
      (delete_batch_reply-refused u)
grpc_delete_batch-code now ctx w u id (short ∷ shorts) h open_ = elim (Bool-cases (is_new u)) [
  | inl new_ ↦
      rw
        (
          grpc_delete_batch_user now ctx w u id (short ∷ shorts) h,
          delete_batch_refused now u w (short ∷ shorts) (inl new_),
        )
        (delete_batch_reply-refused u ∙ rw new_ refl)
  | inr old ↦ rw (grpc_delete_batch_user now ctx w u id (short ∷ shorts) h) (
      delete_batch_reply-none (delete_batch now u (short ∷ shorts) w).0
        (delete_batch_queued now u w short shorts old open_).0
      ∙ sym (ap (λ b. if b then some unauthenticated else none) old))
]
