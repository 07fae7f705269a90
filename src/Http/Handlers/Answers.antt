-- ===== src/Http/Handlers/Answers.antt =====
-- The statuses that clients get from the handlers of internal/http/server/handlers.go, through the
-- middleware of internal/http/middleware/logging and internal/http/middleware/compress.
use shorty.Base.{
  Str, str, ℕ, ◌≡◌, refl, ap, ◌⊎◌, inl, inr, true, false, Option, none, some, List, [], ◌∷◌, arith,
  lookup, if◌then◌else◌, Bool-cases, inr,
}
use shorty.Errors.{
  Err, Result, ok, err, join, is, returns, shortener_err, invalid_url, resolver_err, invalid_path,
}
use shorty.Model.{UrlRecord, User, Storage, is_new}
use shorty.Memory.{Memory, memory_storage, get, found}
use shorty.Resolver.{resolve, storage_result}
use shorty.Resolver.Paths.{resolve-eq-get, is_valid, resolve_invalid}
use shorty.Session.{Context, get_user_and_req_id, get_request_id}
use shorty.Shortener.{Service, ParsedUrl, World, shorten, shorten_parsed, delete_batch}
use shorty.Shortener.Deletion.{delete_batch_refused}
use shorty.Http.Handlers.Reading.{handle_delete_batch-ok, handle_shorten-ok}
use shorty.Http.Writer.{Wire, Encoder, Action, write_header, serve_wrapped}
use shorty.Http.Writer.Statuses.{sent_code, last_code, serve_wrapped-status, serve_wrapped-panic}
use shorty.Http.Replies.{
  Run, run, content_type_json, answer_resolve, resolve_code, answer_shorten, shorten_code,
  answer_delete_batch,
}
use shorty.Http.Handlers.{
  Request, Library, read_body, with_req_id, handle_resolve, handle_shorten, handle_delete_batch,
}

-- The code of a key that resolves to this record.
abbrev pub record_code : Option UrlRecord → ℕ
record_code none = 404
record_code (some v) = if v.is_deleted then 410 else 307

module _ (net_write : Wire → Str → ℕ × Option Err) (encoder : Encoder) (accept_encoding : Str) where
  -- The status that the client gets of a handler.
  abbrev pub client_status : Run → Option ℕ
  client_status r =
      (serve_wrapped net_write encoder accept_encoding r.actions r.panicking).wire.status

  pub client_status-run :
      (actions : List Action) → client_status (run actions) ≡ some (sent_code (last_code actions 0))
  client_status-run actions = (serve_wrapped-status net_write encoder accept_encoding actions).0

  pub client_status-panic : client_status (record { actions = []; panicking = true }) ≡ some 500
  client_status-panic = serve_wrapped-panic net_write encoder accept_encoding

  client_status-delete_batch : (e : Option Err) → client_status (answer_delete_batch e) ≡ some 202
  unfolding answer_delete_batch
  client_status-delete_batch none = client_status-run _
  client_status-delete_batch (some e) = client_status-run _

  client_status-fail : client_status (run (write_header 500 ∷ [])) ≡ some 500
  client_status-fail = client_status-run _

  module _ {S : Type 0} (st : Storage S) (intn : ℕ → ℕ → ℕ) (svc : Service)
      (parse : Str → Result ParsedUrl) (lib : Library) where
    -- A DeleteBatch request with a user and a request id, a JSON content type, and a body that is
    -- read and decoded, is answered by 202, whatever the service answers: also where it refuses a
    -- new user or an empty batch, and has changed nothing.
    pub delete_batch_accepted :
        (now : ℕ) (ctx : Context) (r : Request) (w : World S) (u : User) (id body : Str)
        (shorts : List Str)
        → get_user_and_req_id ctx ≡ ok (u, id)
        → r.content_type ≡ content_type_json
        → read_body lib r ≡ ok body
        → lib.unmarshal_shorts body ≡ ok shorts
        → (client_status (handle_delete_batch st intn svc parse lib now ctx r w).0 ≡ some 202)
          × ((is_new u ≡ true) ⊎ (shorts ≡ [])
              → (handle_delete_batch st intn svc parse lib now ctx r w).1 ≡ w)
    delete_batch_accepted now ctx r w u id body shorts cu ct cb cs =
        rw (handle_delete_batch-ok st intn svc parse lib now ctx r w u id body shorts cu ct cb cs) (
          client_status-delete_batch (delete_batch now u shorts w).0,
          λ h. ap (λ (x : Option Err × World S). x.1) (delete_batch_refused now u w shorts h),
        )

    -- A Shorten request with a user and a request id, a JSON content type, and a body that is read
    -- and decoded, whose URL does not parse, is answered by 500, although the error of the service
    -- is an invalid URL error; the state stays as it is.
    pub invalid_url_answered :
        (ctx : Context) (r : Request) (w : World S) (u : User) (id body url : Str) (e : Err)
        → get_user_and_req_id ctx ≡ ok (u, id)
        → r.content_type ≡ content_type_json
        → read_body lib r ≡ ok body
        → lib.unmarshal_request body ≡ ok url
        → parse url ≡ err e
        → ((shorten st intn svc parse u url w).0
            ≡ (str "", some (join (shortener_err invalid_url) e)))
          × (is (join (shortener_err invalid_url) e) (shortener_err invalid_url) ≡ true)
          × (client_status (handle_shorten st intn svc parse lib ctx r w).0 ≡ some 500)
          × ((handle_shorten st intn svc parse lib ctx r w).1 ≡ w)
    unfolding shorten shorten_parsed answer_shorten shorten_code
    invalid_url_answered ctx r w u id body url e cu ct cb cs p =
        rw (handle_shorten-ok st intn svc parse lib ctx r w u id body url cu ct cb cs, p)
          (refl, refl, client_status-fail, refl)

  abbrev answer_found : Option UrlRecord → Run
  answer_found o = answer_resolve (returns (storage_result (found o)))

  client_status-found :
      (o : Option UrlRecord) → client_status (answer_found o) ≡ some (record_code o)
  unfolding answer_resolve resolve_code
  client_status-found none = client_status-run _
  client_status-found (some v) = elim (Bool-cases v.is_deleted) [
    | inl d ↦ rw d (client_status-run _)
    | inr d ↦ rw d (client_status-run _)
  ]

  client_status-invalid :
      (e : Err)
      → is e (resolver_err invalid_path) ≡ true
      → client_status (answer_resolve (returns (err e))) ≡ some 400
  unfolding answer_resolve resolve_code
  client_status-invalid e h = rw h (client_status-run _)

  module _ (new_v4 : ℕ → Result Str) (intn : ℕ → ℕ → ℕ) (svc : Service)
      (parse : Str → Result ParsedUrl) (lib : Library) where
    answered-valid :
        (w : World Memory) (c : ℕ) (key : Str)
        → is_valid (c ∷ key) ≡ true
        → (client_status (answer_resolve (resolve get (c ∷ key) w.store).0)
            ≡ some (record_code (lookup key w.store.db)))
          × (record w { store = (resolve get (c ∷ key) w.store).1 } ≡ w)
    unfolding get
    answered-valid w c key h =
        let slash : c ≡ b'/' = ground (arith, h) in
        rw slash (
          rw (resolve-eq-get get key w.store (ground (arith, h)))
            (client_status-found (lookup key w.store.db), refl))

    answered-invalid :
        (w : World Memory) (c : ℕ) (key : Str)
        → is_valid (c ∷ key) ≡ false
        → (client_status (answer_resolve (resolve get (c ∷ key) w.store).0) ≡ some 400)
          × (record w { store = (resolve get (c ∷ key) w.store).1 } ≡ w)
    answered-invalid w c key h =
        let (e, told, invalid) = resolve_invalid get c key w.store h in
        rw told (client_status-invalid e invalid, refl)

    -- With a request id in its context, Resolve over the memory storage answers a valid path by
    -- 307 if its key is stored and not deleted, by 410 if it is deleted, and by 404 if it is not
    -- stored; every other path that is not empty is answered by 400. The state stays as it is.
    pub client_status-handle_resolve :
        (ctx : Context) (r : Request) (w : World Memory) (id : Str) (c : ℕ) (key : Str)
        → get_request_id ctx ≡ some id
        → r.path ≡ c ∷ key
        → (client_status (handle_resolve (memory_storage new_v4) intn svc parse lib ctx r w).0
            ≡ some (if is_valid (c ∷ key) then record_code (lookup key w.store.db) else 400))
          × ((handle_resolve (memory_storage new_v4) intn svc parse lib ctx r w).1 ≡ w)
    unfolding handle_resolve with_req_id
    client_status-handle_resolve ctx r w id c key ci cp =
        rw (ci, cp)
          (elim (Bool-cases (is_valid (c ∷ key))) [
            | inl yes_ ↦ rw yes_ (answered-valid w c key yes_)
            | inr no_ ↦ rw no_ (answered-invalid w c key no_)
          ])
