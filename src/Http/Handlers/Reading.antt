-- ===== src/Http/Handlers/Reading.antt =====
-- Handlers of internal/http/server/handlers.go on a request that they can read.
use shorty.Base.{Str, ℕ, ◌≡◌, refl, ◌∙◌, List, arith, str_eq_iff}
use shorty.Errors.{Result, ok}
use shorty.Model.{User, Storage}
use shorty.Session.{Context, get_user_and_req_id}
use shorty.Shortener.{Service, ParsedUrl, World, shorten, delete_batch}
use shorty.Http.Replies.{Run, content_type_json, answer_shorten, answer_delete_batch}
use shorty.Http.Handlers.{
  Request, Library, read_body, with_user, with_json, with_body, with_decoded, handle_shorten,
  handle_delete_batch, on_world,
}

with_json-json :
    {W : Type 0} (w : W) (r : Request) (next : Run × W)
    → r.content_type ≡ content_type_json
    → with_json w r next ≡ next
unfolding with_json
with_json-json w r next h = ground (arith, str_eq_iff r.content_type content_type_json, h)

-- The part of the handlers that only reads the request, where it succeeds.
with_decoded-ok :
    {W A : Type 0} (w : W) (r : Request) (rb : Result Str) (body : Str) (bad : Run)
    (decode : Str → Result A) (a : A) (next : A → Run × W)
    → r.content_type ≡ content_type_json
    → rb ≡ ok body
    → decode body ≡ ok a
    → with_json w r (with_body w rb λ b. with_decoded w bad (decode b) next) ≡ next a
unfolding with_body with_decoded
with_decoded-ok w r rb body bad decode a next ct cb ca = with_json-json w r _ ct ∙ rw (cb, ca) refl

module _ {S : Type 0} (st : Storage S) (intn : ℕ → ℕ → ℕ) (svc : Service)
    (parse : Str → Result ParsedUrl) (lib : Library) where
  pub handle_delete_batch-ok :
      (now : ℕ) (ctx : Context) (r : Request) (w : World S) (u : User) (id body : Str)
      (shorts : List Str)
      → get_user_and_req_id ctx ≡ ok (u, id)
      → r.content_type ≡ content_type_json
      → read_body lib r ≡ ok body
      → lib.unmarshal_shorts body ≡ ok shorts
      → handle_delete_batch st intn svc parse lib now ctx r w
        ≡ on_world st intn svc parse lib answer_delete_batch (delete_batch now u shorts w)
  unfolding handle_delete_batch with_user
  handle_delete_batch-ok now ctx r w u id body shorts cu ct cb cs =
      rw cu (with_decoded-ok w r _ body _ lib.unmarshal_shorts shorts _ ct cb cs)

  pub handle_shorten-ok :
      (ctx : Context) (r : Request) (w : World S) (u : User) (id body url : Str)
      → get_user_and_req_id ctx ≡ ok (u, id)
      → r.content_type ≡ content_type_json
      → read_body lib r ≡ ok body
      → lib.unmarshal_request body ≡ ok url
      → handle_shorten st intn svc parse lib ctx r w
        ≡ on_world st intn svc parse lib
            (answer_shorten content_type_json lib.marshal_response)
            (shorten st intn svc parse u url w)
  unfolding handle_shorten with_user
  handle_shorten-ok ctx r w u id body url cu ct cb cs =
      rw cu (with_decoded-ok w r _ body _ lib.unmarshal_request url _ ct cb cs)
