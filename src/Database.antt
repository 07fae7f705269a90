-- ===== src/Database.antt =====
-- internal/storage/database/database.go. The queries are PostgreSQL's and the driver pgx's: each is a
-- field of `Pool`, on a state `S`, with the values that the code reads of its result.
pub mod Answers
pub mod Table
pub mod Deleted
pub mod OneRow
pub mod Connecting
mod Tests
use shorty.Base.{
  Str, str, ℕ, ◌+◌, Bool, true, false, Option, none, some, List, [], ◌∷◌, map, str_eq, ◌==◌,
  if◌then◌else◌,
}
use shorty.Errors.{
  Err, Result, ok, err, message, wrap, is, model_err, not_found, already_exists, conflict, deleted,
}
use shorty.Model.{Url, Stats, Storage, wrap64}

-- The error of a statement: of PostgreSQL, as a unique violation with the name of its constraint or
-- as another one, or of the driver.
pub data PgError : Type 0 where
  unique_violation : Str → Err → PgError
  other_pg_error unknown_error : Err → PgError

-- The result of Scan on a row.
pub data Scanned (A : Type 0) : Type 0 where
  row : A → Scanned A
  no_rows : Scanned A
  scan_error : Err → Scanned A

pub data Executed : Type 0 where
  affected : ℕ → Executed
  exec_error : PgError → Executed

-- A deletion of the batch: hash, user id and timestamp.
pub record Deletion : Type 0 where
  pub hash : Str
  pub user_id : Str
  pub ts : ℕ

pub record Pool (S : Type 0) : Type 0 where
  pub ping : S → Option Err × S
  -- the counts of Stats
  pub query_stats : S → Result Stats × S
  -- insert into urls(hash, orig, userid)
  pub insert : Str → Str → Str → S → Executed × S
  -- the batch of inserts
  pub send_inserts : List Url → S → Option PgError × S
  -- select orig, deleted from urls where hash = $1
  pub select_by_hash : Str → S → Scanned (Str × Bool) × S
  -- select hash from urls where orig = $1 and deleted = false
  pub select_by_orig : Str → S → Scanned Str × S
  -- select hash, orig from urls where userid = $1 and deleted = false, and the collected rows
  pub select_by_user : Str → S → Result (List (Str × Str)) × S
  -- the batch of updates: the rows affected by each
  pub send_deletions : List Deletion → S → Result (List ℕ) × S
  -- update urls set hash = $1 where orig = $2
  pub update_hash : Str → Str → S → Executed × S

abbrev urls_index_hash : Str
urls_index_hash = str "urls_hash"

abbrev pub urls_index_orig : Str
urls_index_orig = str "urls_orig_key"

module _ {S : Type 0} (pool : Pool S) where
  abbrev ping_error : Option Err → Option Err
  ping_error none = none
  ping_error (some e) = some (wrap (str "db ping unsuccessful") e)

  abbrev database_ping : S → Option Err × S
  database_ping s = let (e, s') = pool.ping s in (ping_error e, s')

  abbrev stats_error : Result Stats → Result Stats
  stats_error (ok x) = ok x
  stats_error (err e) = err (wrap (str "stats query error") e)

  abbrev database_stats : S → Result Stats × S
  database_stats s = let (r, s') = pool.query_stats s in (stats_error r, s')

  abbrev hash_of : Scanned Str → Result Str
  hash_of (row h) = ok h
  hash_of no_rows = err (model_err not_found)
  hash_of (scan_error e) = err e

  -- getHashByURL
  abbrev get_hash_by_url : Str → S → Result Str × S
  get_hash_by_url url s = let (r, s') = pool.select_by_orig url s in (hash_of r, s')

  abbrev conflicting : Result Str × S → (Str × Option Err) × S
  conflicting (err e, s) = ((str "", some e), s)
  conflicting (ok h, s) = ((h, some (model_err conflict)), s)

  abbrev inserted : Url → Executed × S → (Str × Option Err) × S
  inserted url (affected n, s) =
      if n == 1 then ((str "", none), s) else ((str "", some (message (str "affected rows"))), s)
  inserted url (exec_error (unknown_error e), s) =
      ((str "", some (wrap (str "unknown postgres error") e)), s)
  inserted url (exec_error (other_pg_error e), s) =
      ((str "", some (wrap (str "postgres error") e)), s)
  inserted url (exec_error (unique_violation constraint e), s) =
      if str_eq constraint urls_index_hash
      then ((str "", some (model_err already_exists)), s)
      else if str_eq constraint urls_index_orig
      then conflicting (get_hash_by_url url.orig s)
      else ((str "", some (wrap (str "postgres error") e)), s)

  -- Store without overwriting
  pub store_new : Url → S → (Str × Option Err) × S
  store_new url s = inserted url (pool.insert url.short url.orig url.user_id s)

  -- The text of a row is empty where Scan has failed.
  abbrev got : Scanned (Str × Bool) → Result Str
  got no_rows = err (model_err not_found)
  got (scan_error e) = ok (str "")
  got (row (url, true)) = err (model_err deleted)
  got (row (url, false)) = ok url

  pub database_get : Str → S → Result Str × S
  database_get hash s = let (r, s') = pool.select_by_hash hash s in (got r, s')

  abbrev updated : Executed → Option Err
  updated (affected n) = if n == 1 then none else some (message (str "update affected rows"))
  updated (exec_error (unique_violation constraint e)) = some (wrap (str "database update error") e)
  updated (exec_error (other_pg_error e)) = some (wrap (str "database update error") e)
  updated (exec_error (unknown_error e)) = some (wrap (str "database update error") e)

  -- updateOrig
  abbrev update_orig : Url → S → Option Err × S
  update_orig url s = let (r, s') = pool.update_hash url.short url.orig s in (updated r, s')

  abbrev update_stored : Option Err × S → (Str × Option Err) × S
  update_stored (e, s) = ((str "", e), s)

  abbrev overwritten : Url → Result Str × S → (Str × Option Err) × S
  overwritten url (err e, s) =
      if is e (model_err not_found) then store_new url s else ((str "", some e), s)
  overwritten url (ok stored_url, s) =
      if str_eq stored_url url.orig then ((str "", none), s) else update_stored (update_orig url s)

  -- storeWithOverwrite
  unfoldable store_with_overwrite : Url → S → (Str × Option Err) × S
  store_with_overwrite url s = overwritten url (database_get url.short s)

  pub database_store : Url → Bool → S → (Str × Option Err) × S
  database_store url overwrite s = if overwrite then store_with_overwrite url s else store_new url s

  abbrev batch_error : Option PgError → Option Err
  batch_error none = none
  batch_error (some (unknown_error e)) = some (wrap (str "unknown postgres error") e)
  batch_error (some (unique_violation constraint e)) = some (model_err already_exists)
  batch_error (some (other_pg_error e)) = some (wrap (str "pgx batch error") e)

  abbrev database_store_batch : List Url → S → Option Err × S
  database_store_batch urls s = let (e, s') = pool.send_inserts urls s in (batch_error e, s')

  abbrev listed_row : Str × Str → Url
  listed_row (hash, orig) = record { short = hash; orig = orig; user_id = str ""; ts = 0 }

  abbrev listed : Result (List (Str × Str)) → Result (List Url)
  listed (err e) = err (wrap (str "error while collecting rows") e)
  listed (ok []) = err (model_err not_found)
  listed (ok (r ∷ rs)) = ok (map listed_row (r ∷ rs))

  abbrev database_list_user_urls : Str → S → Result (List Url) × S
  database_list_user_urls user_id s = let (r, s') = pool.select_by_user user_id s in (listed r, s')

  -- The loop of DeleteUserURLs: a timestamp that is not set is that of the entry before it, or the
  -- time of the call.
  abbrev pub deletions : ℕ → List Url → List Deletion
  deletions ts [] = []
  deletions ts (url ∷ urls) =
      let ts' = if url.ts == 0 then ts else url.ts in
      record { hash = url.short; user_id = url.user_id; ts = ts' } ∷ deletions ts' urls

  abbrev sum : List ℕ → ℕ
  sum [] = 0
  sum (n ∷ ns) = wrap64 (n + sum ns)

  abbrev deleted_rows : Result (List ℕ) → Result ℕ
  deleted_rows (err e) = err (wrap (str "pgx batch delete error") e)
  deleted_rows (ok ns) = ok (sum ns)

  -- DeleteUserURLs at this time
  abbrev database_delete_user_urls : ℕ → List Url → S → Result ℕ × S
  database_delete_user_urls now urls s =
      let (r, s') = pool.send_deletions (deletions now urls) s in (deleted_rows r, s')

  abbrev pub database_storage : ℕ → Storage S
  database_storage now = record {
    get = database_get;
    store = database_store;
    store_batch = database_store_batch;
    list_user_urls = database_list_user_urls;
    delete_user_urls = database_delete_user_urls now;
    ping = database_ping;
    stats = database_stats;
  }
