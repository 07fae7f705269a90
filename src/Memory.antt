-- ===== src/Memory.antt =====
-- internal/storage/memory/simple.go and the statistics of internal/storage/memory/db/db.go. The
-- mutex makes every method one atomic step, but for Stats, which does not take it. `new_v4 n` is
-- the result of the n-th call of the UUID generator, as a string.
mod Tests
pub mod Storing
pub mod Batch
pub mod Listing
pub mod Statistics
pub mod Invariant
pub mod Deletion
use shorty.Base.{
  Str, str, ℕ, suc, ◌+◌, Bool, true, false, not, ◌&&◌, Option, none, some, List, [], ◌∷◌, GoMap,
  lookup, insert, length, str_eq, if◌then◌else◌,
}
use shorty.Errors.{Err, Result, ok, err, wrap, model_err, not_found, already_exists, deleted}
use shorty.Model.{Url, Stats, UrlRecord, Storage, wrap64}

abbrev pub Db : Type 0
Db = GoMap UrlRecord

pub record Memory : Type 0 where
  pub db : Db
  pub drawn : ℕ

abbrev pub new_db : Db
new_db = []

pub new : Memory
new = record { db = new_db; drawn = 0 }

-- DB.Map
unfoldable db_map : Db → GoMap Str
db_map [] = []
db_map ((k, v) ∷ db) = insert k v.original_url (db_map db)

abbrev pub found : Option UrlRecord → Result Str
found none = err (model_err not_found)
found (some record_) =
    if record_.is_deleted then err (model_err deleted) else ok record_.original_url

unfoldable pub get : Str → Memory → Result Str × Memory
get key m = (found (lookup key m.db), m)

abbrev pub new_record : Str → Url → UrlRecord
new_record id url = record {
  uuid = id;
  short_url = url.short;
  original_url = url.orig;
  user_id = url.user_id;
  is_deleted = false;
}

-- `u, ok := m.DB[short]; ok && !u.Deleted`
abbrev pub is_live : Option UrlRecord → Bool
is_live none = false
is_live (some u) = not u.is_deleted

module _ (new_v4 : ℕ → Result Str) where
  put_new : Url → Memory → Result Str → (Str × Option Err) × Memory
  put_new url m (err e) =
      ((str "", some (wrap (str "cannot generate key uuid") e)), record m { drawn = suc m.drawn })
  put_new url m (ok u) = (
    (str "", none),
    record m { db = insert url.short (new_record u url) m.db; drawn = suc m.drawn },
  )

  unfoldable pub store : Url → Bool → Memory → (Str × Option Err) × Memory
  unfolding put_new
  store url overwrite m =
      if is_live (lookup url.short m.db) && not overwrite
      then ((str "", some (model_err already_exists)), m)
      else put_new url m (new_v4 m.drawn)

  -- The first loop of StoreBatch: the checks and the identifiers.
  unfoldable pub draw_ids : List Url → Db → ℕ → Result (List Str) × ℕ
  draw_ids [] db n = (ok [], n)
  draw_ids (url ∷ urls) db n =
      let later = draw_ids urls db (suc n) in
      if is_live (lookup url.short db)
      then (err (model_err already_exists), n)
      else elim (new_v4 n) [
        | err e ↦ (err (wrap (str "cannot generate key uuid") e), suc n)
        | ok u ↦ elim later.0 [ err e ↦ (err e, later.1) | ok ids ↦ (ok (u ∷ ids), later.1) ]
      ]

-- The second loop of StoreBatch.
unfoldable pub put_batch : List Url → List Str → Db → Db
put_batch [] ids db = db
put_batch (url ∷ urls) [] db = db
put_batch (url ∷ urls) (id ∷ ids) db = put_batch urls ids (insert url.short (new_record id url) db)

finish_batch : List Url → Memory → Result (List Str) × ℕ → Option Err × Memory
finish_batch urls m (err e, n) = (some e, record m { drawn = n })
finish_batch urls m (ok ids, n) = (none, record { db = put_batch urls ids m.db; drawn = n })

unfoldable pub store_batch : (ℕ → Result Str) → List Url → Memory → Option Err × Memory
unfolding finish_batch
store_batch new_v4 urls m = finish_batch urls m (draw_ids new_v4 urls m.db m.drawn)

-- The loop of ListUserURLs.
pub user_urls : Str → Db → List Url
user_urls user_id [] = []
user_urls user_id ((k, r) ∷ db) =
    let rest = user_urls user_id db in
    if str_eq r.user_id user_id
    then record { short = r.short_url; orig = r.original_url; user_id = user_id; ts = 0 } ∷ rest
    else rest

pub list_user_urls : Str → Memory → Result (List Url) × Memory
list_user_urls user_id m = (ok (user_urls user_id m.db), m)

abbrev pub mark_deleted : UrlRecord → UrlRecord
mark_deleted r = record r { is_deleted = true }

unfoldable pub delete_found : Url → Option UrlRecord → Db × ℕ → Db × ℕ
delete_found url none (db, num) = (db, num)
delete_found url (some r) (db, num) =
    if str_eq r.user_id url.user_id
    then (insert url.short (mark_deleted r) db, wrap64 (num + 1))
    else (db, num)

-- One round of the loop of DeleteUserURLs.
unfoldable pub delete_one : Url → Db × ℕ → Db × ℕ
unfolding delete_found
delete_one url (db, num) = delete_found url (lookup url.short db) (db, num)

unfoldable pub delete_each : List Url → Db × ℕ → Db × ℕ
delete_each [] st = st
delete_each (url ∷ urls) st = delete_each urls (delete_one url st)

unfoldable pub delete_user_urls : List Url → Memory → Result ℕ × Memory
delete_user_urls urls m =
    let (db, num) = delete_each urls (m.db, 0) in (ok num, record m { db = db })

abbrev pub seen : Option Bool → Bool
seen none = false
seen (some b) = b

-- The loop of DB.Stats.
pub count_users : Db → GoMap Bool → ℕ → ℕ
count_users [] users ctr = ctr
count_users ((k, r) ∷ db) users ctr =
    let fresh = not (seen (lookup r.user_id users)) && not r.is_deleted in
    count_users db (if fresh then insert r.user_id true users else users)
      (if fresh then wrap64 (ctr + 1) else ctr)

pub db_stats : Db → Stats
db_stats db = record { urls = length db; users = count_users db [] 0 }

unfoldable pub stats : Memory → Result Stats × Memory
stats m = (ok (db_stats m.db), m)

-- Dump copies the map, Ping and Close do nothing.
unfoldable pub dump : Memory → Db
dump m = m.db

unfoldable pub ping : Memory → Option Err × Memory
ping m = (none, m)

abbrev pub memory_storage : (ℕ → Result Str) → Storage Memory
memory_storage new_v4 = record {
  get = get;
  store = store new_v4;
  store_batch = store_batch new_v4;
  list_user_urls = list_user_urls;
  delete_user_urls = delete_user_urls;
  ping = ping;
  stats = stats;
}
