-- ===== src/Http/Server/Following.antt =====
-- A GET and a DELETE that come after a POST, through the whole server (internal/http/server).
use shorty.Base.{Str, str, ℕ, ◌≡◌, refl, ap, ◌∙◌, some, List, str_eq}
use shorty.Errors.{Result, ok}
use shorty.Model.{User}
use shorty.Session.{get_user_and_req_id}
use shorty.Auth.{create_or_parse_user, decided, with_session}
use shorty.Resolver.{resolve}
use shorty.Shortener.{World, delete_batch}
use shorty.Http.Replies.{content_type_json, answer_resolve, answer_delete_batch}
use shorty.Http.Handlers.{read_body, with_req_id, handle_resolve}
use shorty.Http.Handlers.Reading.{handle_delete_batch-ok}
use shorty.Http.Server.{
  Parts, HttpRequest, wrapped, auth_then, serve_http, routes, mounted_routes, mount_route,
  delete_route, resolve_route, wrapped_run, handle, to_resolve, to_delete_batch,
}
use shorty.Auth.Issuing.{Generates}
use shorty.Http.Server.Steps.{identified_as, serve_outer, serve_mounted}
use shorty.Http.Server.Posting.{session_context}

module _ {S : Type 0} (p : Parts S) (r : HttpRequest) (w : World S) (n : ℕ)
    (works : Generates p.auth) where
  handle_get :
      (id path : Str)
      → r.request.path ≡ path
      → handle p r to_resolve (identified_as id) w ≡ (
        answer_resolve (resolve p.st.get path w.store).0,
        record w { store = (resolve p.st.get path w.store).1 },
      )
  unfolding handle_resolve with_req_id
  handle_get id path h =
      ap
        (λ k. (
          answer_resolve (resolve p.st.get k w.store).0,
          record w { store = (resolve p.st.get k w.store).1 },
        ))
        h

  -- The response to a request that chi leads to Resolve.
  pub serve_get :
      (path : Str)
      → p.chi.find routes r.method r.request.path ≡ some resolve_route
      → r.request.path ≡ path
      → (serve_http p r w n).0 ≡ wrapped (answer_resolve (resolve p.st.get path w.store).0)
  serve_get path found at =
      let (id, m, served) = serve_outer p r w n to_resolve _ _ works found in
      rw (served, handle_get id path at) refl

  handle_delete :
      (id body : Str) (u : User) (shorts : List Str)
      → r.request.content_type ≡ content_type_json
      → read_body p.lib r.request ≡ ok body
      → p.lib.unmarshal_shorts body ≡ ok shorts
      → handle p r to_delete_batch (session_context u id) w
        ≡ (answer_delete_batch (delete_batch r.now u shorts w).0, (delete_batch r.now u shorts w).1)
  unfolding get_user_and_req_id
  handle_delete id body u shorts json read decoded =
      handle_delete_batch-ok p.st p.intn p.svc p.parse p.lib r.now (session_context u id) r.request
        w u id body shorts refl json read decoded

  -- The response to a request that chi leads to DeleteBatch, with a token that identifies this user.
  pub serve_delete :
      (tok body : Str) (u : User) (shorts : List Str)
      → p.chi.find routes r.method r.request.path ≡ some mount_route
      → p.chi.find mounted_routes r.method r.request.path ≡ some delete_route
      → r.cookie ≡ some tok
      → ((m : ℕ) → create_or_parse_user p.auth p.secret r.now (some tok) m ≡ (ok (u, str ""), m))
      → r.request.content_type ≡ content_type_json
      → read_body p.lib r.request ≡ ok body
      → p.lib.unmarshal_shorts body ≡ ok shorts
      → ((serve_http p r w n).0 ≡ wrapped (answer_delete_batch (delete_batch r.now u shorts w).0))
        × ((serve_http p r w n).1 ≡ (delete_batch r.now u shorts w).1)
  unfolding with_session str_eq
  serve_delete tok body u shorts found found_below cookie parsed json read decoded =
      let (id, m, served) = serve_mounted p r w n delete_route works found found_below in
      let chain = λ (c : Result (User × Str) × ℕ).
        wrapped_run p (
          auth_then p (decided (identified_as id) c) w (λ ctx. handle p r to_delete_batch ctx w)) in
      let known : create_or_parse_user p.auth p.secret r.now r.cookie m ≡ (ok (u, str ""), m) =
        ap (λ c. create_or_parse_user p.auth p.secret r.now c m) cookie ∙ parsed m in
      let served' = served ∙ ap chain known in
      rw (served', handle_delete id body u shorts json read decoded) (refl, refl)
