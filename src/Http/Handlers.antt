-- ===== src/Http/Handlers.antt =====
-- internal/http/server/handlers.go: what each handler does with its ResponseWriter, from the request,
-- its context and the results of the services. Logging is left out.
pub mod Reading
pub mod Answers
use shorty.Base.{Str, str, ℕ, Option, none, some, List, [], ◌∷◌, str_eq, if◌then◌else◌}
use shorty.Errors.{Result, ok, err, message}
use shorty.Model.{Url, User, Stats, Storage}
use shorty.Session.{Context, get_request_id, get_user_and_req_id}
use shorty.Resolver.{resolve}
use shorty.Shortener.{
  Service, ParsedUrl, World, BatchUrl, BatchShortened, shorten, shorten_batch, get_all,
  delete_batch,
}
use shorty.Status.{ping, stats}
use shorty.Http.Writer.{write_header}
use shorty.Http.Replies.{
  Run, run, content_type_json, content_type_plain, status_bad_request, fail, answer_ping,
  stats_value, write_stats, answer_resolve, answer_shorten, answer_get_all, answer_shorten_batch,
  answer_delete_batch, bad_request,
}

-- What the handlers read of a request. `body` is what reading it gives.
pub record Request : Type 0 where
  pub path : Str
  pub content_type : Str
  pub content_encoding : Str
  pub body : Result Str

-- The decompressors (NewReader and ReadAll) and encoding/json.
pub record Library : Type 0 where
  pub gunzip : Result Str → Result Str
  pub inflate : Result Str → Result Str
  pub unmarshal_request : Str → Result Str
  pub unmarshal_batch : Str → Result (List BatchUrl)
  pub unmarshal_shorts : Str → Result (List Str)
  pub marshal_response : Str → Result Str
  pub marshal_shortened : List BatchShortened → Result Str
  pub marshal_urls : List Url → Result Str
  -- at `none`, a nil *model.Stats
  pub marshal_stats : Option Stats → Result Str

module _ (lib : Library) where
  -- getContentReader and readBody
  unfoldable pub read_body : Request → Result Str
  read_body r =
      if str_eq r.content_encoding (str "gzip")
      then lib.gunzip r.body
      else if str_eq r.content_encoding (str "deflate")
      then lib.inflate r.body
      else if str_eq r.content_encoding (str "")
      then r.body
      else err (message (str "unknown content encoding"))

-- The early returns that the handlers share. A body that cannot be read is left without a status.
module _ {W : Type 0} (w : W) where
  unfoldable pub with_req_id : Option Str → Run × W → Run × W
  with_req_id none next = (fail, w)
  with_req_id (some id) next = next

  unfoldable pub with_user : Result (User × Str) → (User → Run × W) → Run × W
  with_user (err e) next = (fail, w)
  with_user (ok (u, id)) next = next u

  pub with_json : Request → Run × W → Run × W
  with_json r next =
      if str_eq r.content_type content_type_json
      then next
      else (run (write_header status_bad_request ∷ []), w)

  unfoldable pub with_body : Result Str → (Str → Run × W) → Run × W
  with_body (err e) next = (run [], w)
  with_body (ok body) next = next body

  pub with_decoded : {A : Type 0} → Run → Result A → (A → Run × W) → Run × W
  with_decoded bad (err e) next = (bad, w)
  with_decoded bad (ok a) next = next a

module _ {S : Type 0} (st : Storage S) (intn : ℕ → ℕ → ℕ) (svc : Service)
    (parse : Str → Result ParsedUrl) (lib : Library) where
  abbrev on_store {ℓ} : {A : Type ℓ} → (A → Run) → World S → A × S → Run × World S
  on_store answer w (a, s) = (answer a, record w { store = s })

  abbrev on_world {ℓ} : {A : Type ℓ} → (A → Run) → A × World S → Run × World S
  on_world answer (a, w) = (answer a, w)

  -- Ping
  unfoldable pub handle_ping : World S → Run × World S
  handle_ping w = on_store answer_ping w (ping st w.store)

  -- Stats
  unfoldable pub handle_stats : Context → World S → Run × World S
  handle_stats ctx w =
      with_req_id w (get_request_id ctx)
        (on_store (λ r. write_stats (lib.marshal_stats (stats_value r))) w (stats st w.store))

  -- Resolve
  unfoldable pub handle_resolve : Context → Request → World S → Run × World S
  handle_resolve ctx r w =
      with_req_id w (get_request_id ctx) (on_store answer_resolve w (resolve st.get r.path w.store))

  -- Shorten
  pub handle_shorten : Context → Request → World S → Run × World S
  handle_shorten ctx r w = with_user w (get_user_and_req_id ctx) λ u. with_json w r (
      with_body w (read_body lib r) λ body.
        with_decoded w bad_request (lib.unmarshal_request body) λ url.
          on_world (answer_shorten content_type_json lib.marshal_response)
            (shorten st intn svc parse u url w))

  -- ShortenPlain
  unfoldable pub handle_shorten_plain : Context → Request → World S → Run × World S
  handle_shorten_plain ctx r w = with_user w (get_user_and_req_id ctx) λ u.
      with_body w (read_body lib r)
        λ body. on_world (answer_shorten content_type_plain ok) (shorten st intn svc parse u body w)

  -- GetAll
  unfoldable pub handle_get_all : Context → World S → Run × World S
  handle_get_all ctx w =
      with_user w (get_user_and_req_id ctx)
        λ u. on_world (answer_get_all lib.marshal_urls) (get_all st intn svc u w)

  -- ShortenBatch
  unfoldable pub handle_shorten_batch : Context → Request → World S → Run × World S
  handle_shorten_batch ctx r w = with_user w (get_user_and_req_id ctx) λ u. with_json w r (
      with_body w (read_body lib r) λ body.
        with_decoded w bad_request (lib.unmarshal_batch body) λ batch.
          on_world (answer_shorten_batch lib.marshal_shortened)
            (shorten_batch st intn svc u batch w))

  -- DeleteBatch; a body that is no JSON list is left without a status.
  pub handle_delete_batch : ℕ → Context → Request → World S → Run × World S
  handle_delete_batch now ctx r w = with_user w (get_user_and_req_id ctx) λ u. with_json w r (
      with_body w (read_body lib r) λ body.
        with_decoded w (run []) (lib.unmarshal_shorts body)
          λ shorts. on_world answer_delete_batch (delete_batch now u shorts w))
