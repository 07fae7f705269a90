-- ===== src/Database/Deleted.antt =====
-- Shorten for a URL that was deleted, over the PostgreSQL storage
-- (internal/storage/database/database.go, internal/services/shortener/service.go).
use shorty.Base.{
  Str, str, ℕ, ◌<◌, ◌≤◌, all, length, arith, ap, sym, ◌≡◌, refl, ◌∙◌, true, false, Option, none,
  some, str_eq,
}
use shorty.Errors.{
  Err, Result, ok, err, model_err, not_found, deleted, join, shortener_err, storage_failed,
}
use shorty.Model.{Url, User}
use shorty.Generators.{rand_string}
use shorty.Generators.Alphabet.{IsIntn, is_alphanumeric, rand_string_lem}
use shorty.Shortener.{
  Service, ParsedUrl, World, shorten, shorten_stored, store_url, store_tries, store_drawn,
  store_answer, new_url,
}
use shorty.Shortener.Shortening.{is_accepted, shorten_accepted}
use shorty.Database.{
  unique_violation, Executed, exec_error, Pool, urls_index_orig, inserted, store_new,
  database_store, database_get, database_storage,
}
use shorty.Database.Table.{Rows, IsTable, IsHash, IsUserId}

module _ {S : Type 0} (pool : Pool S) (rows : Rows S) (table : IsTable pool rows) (now : ℕ) where
  inserted-deleted :
      (url : Url) (j : Str) (s : S) (x : Executed × S) (e : Err)
      → x.0 ≡ exec_error (unique_violation urls_index_orig e)
      → rows x.1 j ≡ some (record { orig = url.orig; deleted = true })
      → (inserted pool url x).0 ≡ (str "", some (model_err not_found))
  unfolding str_eq
  inserted-deleted url j s (x, s') e hx h = rw (hx, table.select_orig j url.orig true s' h) refl

  store-deleted :
      (url : Url) (j : Str) (s : S)
      → IsHash url.short
      → IsUserId url.user_id
      → rows s url.short ≡ none
      → rows s j ≡ some (record { orig = url.orig; deleted = true })
      → (database_store pool url false s).0 ≡ (str "", some (model_err not_found))
  unfolding database_store store_new
  store-deleted url j s is_hash is_id free h =
      let (e, taken) =
        table.insert_taken url.short j url.orig url.user_id true s is_hash is_id h free in
      inserted-deleted url j s (pool.insert url.short url.orig url.user_id s) e taken
        (table.insert_failed url.short url.orig url.user_id s _ taken j ∙ h)

  module _ (intn : ℕ → ℕ → ℕ) (svc : Service) (parse : Str → Result ParsedUrl) where
    store_answer-not_found :
        (path : Str) (answer again : (Str × Option Err) × World S)
        → answer.0 ≡ (str "", some (model_err not_found))
        → (store_answer path answer again).0 ≡ (path, some (model_err not_found))
    unfolding store_answer
    store_answer-not_found path ((stored, none), w) again h = cc h
    store_answer-not_found path ((stored, some x), w) again h =
        let same : x ≡ model_err not_found = cc h in rw same refl

    shorten_stored-not_found :
        (path : Str) (r : (Str × Option Err) × World S)
        → r.0 ≡ (path, some (model_err not_found))
        → (shorten_stored svc r).0
          ≡ (str "", some (join (shortener_err storage_failed) (model_err not_found)))
    unfolding shorten_stored
    shorten_stored-not_found path ((stored, none), w) h = cc h
    shorten_stored-not_found path ((stored, some x), w) h =
        let same : x ≡ model_err not_found = cc h in rw same refl

    store_url-deleted :
        (user_id u j : Str) (w : World S)
        → IsHash (rand_string intn svc.path_length w.draws).0
        → IsUserId user_id
        → rows w.store (rand_string intn svc.path_length w.draws).0 ≡ none
        → rows w.store j ≡ some (record { orig = u; deleted = true })
        → (store_url (database_storage pool now) intn svc user_id u w).0
          ≡ ((rand_string intn svc.path_length w.draws).0, some (model_err not_found))
    unfolding store_url store_tries store_drawn
    store_url-deleted user_id u j w is_hash is_id free h =
        store_answer-not_found (rand_string intn svc.path_length w.draws).0 _ _ (
          store-deleted (new_url (rand_string intn svc.path_length w.draws).0 u user_id) j w.store
            is_hash is_id free h)

    -- A path that is drawn fits into the column of hashes, if its length does.
    drawn-IsHash :
        (draws : ℕ)
        → IsIntn intn
        → 0 < svc.path_length
        → svc.path_length ≤ 20
        → IsHash (rand_string intn svc.path_length draws).0
    drawn-IsHash draws range some_ fits =
        let drawn = rand_string_lem intn range svc.path_length draws in
        (
          (λ e. absurd (omega (arith, sym drawn.0 ∙ ap length e, some_))),
          omega (arith, drawn.0, fits),
          drawn.1,
        )

    -- Let the queries do what PostgreSQL documents, Intn keep its bound, the URL parse with an
    -- accepted scheme, the user's id and paths of the configured length fit into their columns, and
    -- the path that is drawn be free. If the table has a deleted row for the text of the URL, under
    -- a hash of letters and digits, then Shorten fails with a storage error that is a "not found",
    -- and Get finds the row deleted: a URL that was deleted cannot be shortened again.
    pub deleted_url_refused :
        (user : User) (orig_url j : Str) (u : ParsedUrl) (w : World S)
        → IsIntn intn
        → 0 < svc.path_length
        → svc.path_length ≤ 20
        → IsUserId user.id
        → parse orig_url ≡ ok u
        → is_accepted svc u ≡ true
        → all is_alphanumeric j ≡ true
        → rows w.store (rand_string intn svc.path_length w.draws).0 ≡ none
        → rows w.store j ≡ some (record { orig = u.text; deleted = true })
        → ((shorten (database_storage pool now) intn svc parse user orig_url w).0
            ≡ (str "", some (join (shortener_err storage_failed) (model_err not_found))))
          × ((database_get pool j w.store).0 ≡ err (model_err deleted))
    unfolding shorten database_get
    deleted_url_refused user orig_url j u w range some_ short is_id parsed fits letters free h =
        let is_hash = drawn-IsHash w.draws range some_ short in
        rw (parsed, shorten_accepted (database_storage pool now) intn svc parse user u w fits)
          (
            shorten_stored-not_found _ _
                (store_url-deleted user.id u.text j w is_hash is_id free h),
            rw (table.select_row j w.store letters, h) refl,
          )
