-- ===== src/Database/Answers.antt =====
-- What the services answer over the PostgreSQL storage where a query does not just succeed
-- (internal/storage/database/database.go).
use shorty.Base.{Str, str, ℕ, ◌+◌, ◌≡◌, refl, true, Option, none, some, ◌∷◌, all, str_eq}
use shorty.Errors.{Err, Result, ok, model_err, conflict, returns}
use shorty.Model.{Url, User}
use shorty.Generators.{rand_string}
use shorty.Generators.Alphabet.{IsIntn, rand_string_lem}
use shorty.Resolver.{resolve, is_path_byte}
use shorty.Resolver.Paths.{resolve-eq-get}
use shorty.Session.{Context, get_request_id}
use shorty.Shortener.{
  Service, ParsedUrl, World, shorten, shorten_stored, store_url, store_tries, store_drawn,
  store_answer, get_served_url, new_url,
}
use shorty.Shortener.Shortening.{is_accepted, shorten_accepted, world-shorten_stored}
use shorty.Http.Writer.{Wire, Encoder}
use shorty.Http.Replies.{answer_resolve}
use shorty.Http.Handlers.{Request, Library, handle_resolve, with_req_id}
use shorty.Http.Handlers.Answers.{client_status, client_status-run}
use shorty.Database.{
  unique_violation, row, scan_error, Executed, exec_error, Pool, urls_index_orig, inserted,
  store_new, database_store, database_get, database_storage,
}

module _ {S : Type 0} (pool : Pool S) (now : ℕ) where
  inserted-conflict :
      (url : Url) (x : Executed × S) (h : Str) (e : Err)
      → x.0 ≡ exec_error (unique_violation urls_index_orig e)
      → ((s : S) → (pool.select_by_orig url.orig s).0 ≡ row h)
      → (inserted pool url x).0 ≡ (h, some (model_err conflict))
  unfolding str_eq
  inserted-conflict url (x, s) h e hx hs = rw (hx, hs s) refl

  module _ (intn : ℕ → ℕ → ℕ) (svc : Service) (parse : Str → Result ParsedUrl) where
    store_answer-conflict :
        (path h : Str) (answer again : (Str × Option Err) × World S)
        → answer.0 ≡ (h, some (model_err conflict))
        → store_answer path answer again ≡ answer
    unfolding store_answer
    store_answer-conflict path h ((stored, none), w) again e = cc e
    store_answer-conflict path h ((stored, some x), w) again e =
        let same_error : x ≡ model_err conflict = cc e in rw same_error refl

    shorten_stored-conflict :
        (h : Str) (r : (Str × Option Err) × World S)
        → r.0 ≡ (h, some (model_err conflict))
        → (shorten_stored svc r).0 ≡ (get_served_url svc h, some (model_err conflict))
    unfolding shorten_stored
    shorten_stored-conflict h ((stored, none), w) e = cc e
    shorten_stored-conflict h ((stored, some x), w) e =
        let same_error : x ≡ model_err conflict = cc e in
        let same_hash : stored ≡ h = cc e in rw (same_error, same_hash) refl

    drawn : Str → Str → World S → Str × ((Str × Option Err) × World S)
    drawn user_id u w = store_drawn (database_storage pool now) intn svc user_id u w

    store_url-conflict :
        (user_id u h : Str) (w : World S)
        → (drawn user_id u w).1.0 ≡ (h, some (model_err conflict))
        → store_url (database_storage pool now) intn svc user_id u w ≡ (drawn user_id u w).1
    unfolding store_url store_tries drawn
    store_url-conflict user_id u h w e = store_answer-conflict _ h (drawn user_id u w).1 _ e

    -- Let Intn keep its bound, the URL parse with an accepted scheme, the insert of its text
    -- violate the constraint on original URLs under every path, and the query for its path give
    -- one. Then Shorten makes one attempt, and returns the served URL of the path that is stored,
    -- together with the conflict.
    pub shorten_conflict :
        (user : User) (orig_url h : Str) (u : ParsedUrl) (e : Err) (w : World S)
        → IsIntn intn
        → parse orig_url ≡ ok u
        → is_accepted svc u ≡ true
        → ((path : Str) (s : S)
            → (pool.insert path u.text user.id s).0
              ≡ exec_error (unique_violation urls_index_orig e))
        → ((s : S) → (pool.select_by_orig u.text s).0 ≡ row h)
        → ((shorten (database_storage pool now) intn svc parse user orig_url w).0
            ≡ (get_served_url svc h, some (model_err conflict)))
          × ((shorten (database_storage pool now) intn svc parse user orig_url w).1.draws
              ≡ svc.path_length + w.draws)
    unfolding shorten drawn store_drawn database_store store_new
    shorten_conflict user orig_url h u e w range parsed fits violates stored =
        let path = rand_string intn svc.path_length w.draws in
        let answer : (drawn user.id u.text w).1.0 ≡ (h, some (model_err conflict)) =
          inserted-conflict (new_url path.0 u.text user.id) _ h e (violates path.0 w.store)
            stored in
        rw
          (
            parsed,
            shorten_accepted (database_storage pool now) intn svc parse user u w fits,
            store_url-conflict user.id u.text h w answer,
          )
          (
            shorten_stored-conflict h (drawn user.id u.text w).1 answer,
            rw (world-shorten_stored svc (drawn user.id u.text w).1)
                (rand_string_lem intn range svc.path_length w.draws).2,
          )

  module _ (net_write : Wire → Str → ℕ × Option Err) (encoder : Encoder) (accept_encoding : Str)
      (intn : ℕ → ℕ → ℕ) (svc : Service) (parse : Str → Result ParsedUrl) (lib : Library) where
    -- Where the query of a valid path fails, other than by finding no row, and the context has a
    -- request id, the HTTP Resolve redirects to an empty URL, by 307.
    pub failed_query_redirects :
        (ctx : Context) (r : Request) (w : World S) (id key : Str) (e : Err)
        → get_request_id ctx ≡ some id
        → r.path ≡ b'/' ∷ key
        → all is_path_byte key ≡ true
        → (pool.select_by_hash key w.store).0 ≡ scan_error e
        → ((resolve (database_get pool) r.path w.store).0 ≡ returns (ok (str "")))
          × (client_status net_write encoder accept_encoding
                (handle_resolve (database_storage pool now) intn svc parse lib ctx r w).0
              ≡ some 307)
    unfolding handle_resolve with_req_id database_get answer_resolve
    failed_query_redirects ctx r w id key e ci cp valid fails =
        rw (ci, cp, resolve-eq-get (database_get pool) key w.store valid, fails)
          (refl, client_status-run net_write encoder accept_encoding _)
