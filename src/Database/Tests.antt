-- ===== src/Database/Tests.antt =====
-- A database that has every URL already, under the path ab, and whose query for a path fails.
use shorty.Base.{Str, str, ℕ, ◌+◌, ◌≡◌, refl, false, none, some, []}
use shorty.Errors.{Err, Result, ok, err, message, model_err, conflict, returns}
use shorty.Model.{User}
use shorty.Buffer.{new_flusher}
use shorty.Generators.Tests.{counting, counting-IsIntn}
use shorty.Resolver.{resolve}
use shorty.Shortener.{ParsedUrl, World, shorten, get_served_url, flusher_config}
use shorty.Http.Handlers.{handle_resolve}
use shorty.Http.Handlers.Answers.{client_status}
use shorty.Http.Tests.{net_write, encoder, service, library, request, context}
use shorty.Database.{
  Pool, unique_violation, row, scan_error, affected, exec_error, urls_index_orig, database_get,
  database_storage,
}
use shorty.Database.Answers.{shorten_conflict, failed_query_redirects}

abbrev failure : Err
failure = message (str "conn closed")

abbrev pool : Pool ℕ
pool = record {
  ping = λ n. (none, n);
  query_stats = λ n. (err failure, n);
  insert = λ hash orig user_id n. (exec_error (unique_violation urls_index_orig failure), n + 1);
  send_inserts = λ urls n. (none, n);
  select_by_hash = λ hash n. (scan_error failure, n);
  select_by_orig = λ orig n. (row (str "ab"), n);
  select_by_user = λ user_id n. (ok [], n);
  send_deletions = λ ds n. (ok [], n);
  update_hash = λ hash orig n. (affected 1, n);
}

abbrev parse : Str → Result ParsedUrl
parse s = ok (record { scheme = str "https"; text = s })

abbrev user : User
user = record { id = str "u"; new = false }

abbrev world : World ℕ
world = record { store = 0; flusher = new_flusher flusher_config; draws = 0 }

shorten_conflict_case :
    ((shorten (database_storage pool 7) counting service parse user (str "https://x") world).0
      ≡ (get_served_url service (str "ab"), some (model_err conflict)))
    × ((shorten
          (database_storage pool 7)
          counting
          service
          parse
          user
          (str "https://x")
          world).1.draws
        ≡ 2 + 0)
unfolding shorty.Base.str_eq
shorten_conflict_case =
    shorten_conflict pool 7 counting service parse user (str "https://x") (str "ab")
      (record { scheme = str "https"; text = str "https://x" }) failure world counting-IsIntn refl
      refl (λ path s. refl) (λ s. refl)

failed_query_redirects_case :
    ((resolve (database_get pool) (str "/01") 0).0 ≡ returns (ok (str "")))
    × (client_status net_write encoder
          (str "")
          (handle_resolve
            (database_storage pool 7)
            counting
            service
            parse
            library
            context
            request
            world).0
        ≡ some 307)
failed_query_redirects_case =
    failed_query_redirects pool 7 net_write encoder (str "") counting service parse library context
      request world (str "r") (str "01") failure refl refl refl refl
