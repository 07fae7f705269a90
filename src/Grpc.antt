-- ===== src/Grpc.antt =====
-- internal/grpc/server/handlers.go: what each method returns, from its request, its context and the
-- results of the services. A method returns a response, nil at `none`, and an error: its code, and
-- none for nil, which is also what gstatus.Error makes of codes.OK.
pub mod Agreement
pub mod Server
mod Tests
use shorty.Base.{Str, ℕ, ◌||◌, Option, none, some, List, if◌then◌else◌}
use shorty.Errors.{
  Err, Result, ok, err, is, model_err, not_found, deleted, conflict, resolver_err, invalid_path,
  shortener_err, invalid_url, unsupported_url_scheme, unauthorized, empty_batch, Outcome, returns,
  panics,
}
use shorty.Model.{Url, User, Stats, Storage}
use shorty.Session.{Context, get_request_id, get_user_and_req_id}
use shorty.Resolver.{resolve}
use shorty.Shortener.{
  Service, ParsedUrl, World, BatchUrl, BatchShortened, shorten, shorten_batch, get_all,
  delete_batch,
}
use shorty.Status.{stats}

-- google.golang.org/grpc/codes, as far as they are used.
pub data Code : Type 0 where
  invalid_argument missing failed_precondition internal unauthenticated permission_denied : Code

abbrev pub Reply : Type 0 → Type 0
Reply A = Option A × Option Code

abbrev pub failed : {A : Type 0} → Code → Reply A
failed c = (none, some c)

abbrev pub answered : {A : Type 0} → A → Reply A
answered a = (some a, none)

abbrev stats_reply : Result Stats → Reply Stats
stats_reply (err e) = failed internal
stats_reply (ok s) = answered s

pub resolve_error_code : Err → Code
resolve_error_code e =
    if is e (resolver_err invalid_path)
    then invalid_argument
    else if is e (model_err not_found)
    then missing
    else if is e (model_err deleted)
    then failed_precondition
    else internal

pub resolve_reply : Outcome (Result Str) → Outcome (Reply Str)
resolve_reply panics = panics
resolve_reply (returns (err e)) = returns (failed (resolve_error_code e))
resolve_reply (returns (ok url)) = returns (answered url)

-- errors.Is gets its arguments in the order of the source; a conflict comes with the short URL.
pub shorten_reply : Str × Option Err → Reply Str
shorten_reply (result, none) = answered result
shorten_reply (result, some e) =
    if is (shortener_err invalid_url) e || is (shortener_err unsupported_url_scheme) e
    then failed invalid_argument
    else if is (model_err conflict) e
    then (some result, some failed_precondition)
    else failed internal

unfoldable pub shorten_batch_reply : Result (List BatchShortened) → Reply (List BatchShortened)
shorten_batch_reply (err e) = failed internal
shorten_batch_reply (ok shorts) = answered shorts

pub delete_batch_reply : Option Err → Reply (Unit {0})
delete_batch_reply none = (none, none)
delete_batch_reply (some e) =
    if is (shortener_err unauthorized) e
    then failed unauthenticated
    else if is (shortener_err empty_batch) e
    then failed invalid_argument
    else failed internal

unfoldable pub get_all_reply : Result (List Url) → Reply (List Url)
get_all_reply (err e) = if is e (model_err not_found) then failed missing else failed internal
get_all_reply (ok urls) = answered urls

-- The early returns for what the context lacks.
module _ {W B : Type 0} (w : W) (lacking : B) where
  pub needs_req_id : Option Str → B × W → B × W
  needs_req_id none next = (lacking, w)
  needs_req_id (some id) next = next

  pub needs_user : Result (User × Str) → (User → B × W) → B × W
  needs_user (err e) next = (lacking, w)
  needs_user (ok (u, id)) next = next u

abbrev replying_store {ℓ} : {A : Type ℓ} {B S : Type 0} → (A → B) → World S → A × S → B × World S
replying_store reply w (a, s) = (reply a, record w { store = s })

abbrev pub replying {ℓ} : {A : Type ℓ} {B S : Type 0} → (A → B) → A × World S → B × World S
replying reply (a, w) = (reply a, w)

module _ {S : Type 0} (st : Storage S) where
  -- Stats does not look at the context.
  pub grpc_stats : World S → Reply Stats × World S
  grpc_stats w = replying_store stats_reply w (stats st w.store)

  -- Resolve
  pub grpc_resolve : Context → Str → World S → Outcome (Reply Str) × World S
  grpc_resolve ctx path w =
      needs_req_id w (returns (failed internal)) (get_request_id ctx)
        (replying_store resolve_reply w (resolve st.get path w.store))

module _ {S : Type 0} (st : Storage S) (intn : ℕ → ℕ → ℕ) (svc : Service) where
  -- Shorten
  pub grpc_shorten : (Str → Result ParsedUrl) → Context → Str → World S → Reply Str × World S
  grpc_shorten parse ctx url w =
      needs_user w (failed internal) (get_user_and_req_id ctx)
        λ u. replying shorten_reply (shorten st intn svc parse u url w)

  -- ShortenBatch; the entries of the request and of the response are the service's.
  unfoldable pub grpc_shorten_batch :
      Context → List BatchUrl → World S → Reply (List BatchShortened) × World S
  grpc_shorten_batch ctx batch w =
      needs_user w (failed internal) (get_user_and_req_id ctx)
        λ u. replying shorten_batch_reply (shorten_batch st intn svc u batch w)

  -- GetAll
  unfoldable pub grpc_get_all : Context → World S → Reply (List Url) × World S
  grpc_get_all ctx w =
      needs_user w (failed internal) (get_user_and_req_id ctx)
        λ u. replying get_all_reply (get_all st intn svc u w)

-- DeleteBatch
pub grpc_delete_batch : {S : Type 0} → ℕ → Context → List Str → World S → Reply (Unit {0}) × World S
grpc_delete_batch now ctx shorts w =
    needs_user w (failed internal) (get_user_and_req_id ctx)
      λ u. replying delete_batch_reply (delete_batch now u shorts w)
