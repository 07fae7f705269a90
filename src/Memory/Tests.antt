-- ===== src/Memory/Tests.antt =====
-- Runs of the in-memory storage on small inputs, and the theorems applied to them.
use shorty.Base.{
  Str, str, ℕ, ◌≡◌, refl, false, none, some, List, [], ◌∷◌, lookup, insert, arith, str_eq, length,
  ◌↔◌, Any, if◌then◌else◌, all,
}
use shorty.Errors.{Result, ok, err, model_err, already_exists, deleted}
use shorty.Model.{Url, UrlRecord}
use shorty.Memory.{
  Memory, new, put_new, store, get, draw_ids, finish_batch, store_batch, delete_found, delete_one,
  delete_each, delete_user_urls, list_user_urls, db_stats,
}
use shorty.Memory.Storing.{get-store}
use shorty.Memory.Batch.{get-store_batch, store_batch_refused, over, batch_orig, is_free}
use shorty.Memory.Invariant.{
  stores, stores_batch, deletes, run, run-IsWellFormed, IsWellFormed, new-IsWellFormed,
}
use shorty.Memory.Deletion.{get-delete_user_urls, is_requested}
use shorty.Memory.Listing.{list_user_urls_iff, IsListed}
use shorty.Memory.Statistics.{db_stats_lem, HasNoDuplicates, contains, has_live}

abbrev new_v4 : ℕ → Result Str
new_v4 n = ok (n ∷ [])

abbrev url_a : Url
url_a = record { short = str "a"; orig = str "https://a.example"; user_id = str "u"; ts = 0 }

abbrev url_b : Url
url_b = record { short = str "b"; orig = str "https://b.example"; user_id = str "v"; ts = 0 }

-- A batch entry of another user for the key of `url_a`.
abbrev foreign_a : Url
foreign_a = record { short = str "a"; orig = str ""; user_id = str "v"; ts = 0 }

abbrev record_a : UrlRecord
record_a = record {
  uuid = 0 ∷ [];
  short_url = str "a";
  original_url = str "https://a.example";
  user_id = str "u";
  is_deleted = false;
}

-- The storage that holds `url_a` only.
abbrev memory_a : Memory
memory_a = record { db = (str "a", record_a) ∷ []; drawn = 1 }

store_test : (store new_v4 url_a false new).1 ≡ memory_a
unfolding new store put_new lookup insert
store_test = refl

delete_test :
    (get (str "a") (delete_user_urls (url_a ∷ foreign_a ∷ []) memory_a).1).0
    ≡ err (model_err deleted)
unfolding get delete_user_urls delete_each delete_one delete_found lookup insert str_eq
delete_test = refl

store_ok : (store new_v4 url_b false memory_a).0.1 ≡ none
unfolding store put_new lookup str_eq
store_ok = refl

store_taken : (store new_v4 url_a false memory_a).0.1 ≡ some (model_err already_exists)
unfolding store lookup str_eq
store_taken = refl

get_a : (get (str "a") memory_a).0 ≡ ok (str "https://a.example")
unfolding get lookup str_eq
get_a = refl

batch_ok : (store_batch new_v4 (url_b ∷ url_b ∷ []) memory_a).0 ≡ none
unfolding store_batch draw_ids finish_batch lookup str_eq
batch_ok = refl

batch_taken : (store_batch new_v4 (url_b ∷ url_a ∷ []) memory_a).0 ≡ some (model_err already_exists)
unfolding store_batch draw_ids finish_batch lookup str_eq
batch_taken = refl

memory_a-IsWellFormed : IsWellFormed memory_a.db
unfolding lookup
memory_a-IsWellFormed = record { distinct = (refl, tt); filed = (refl, tt) }

get-store_case : (get (str "a") (store new_v4 url_b false memory_a).1).0 ≡ (
    if str_eq (str "b") (str "a") then ok (str "https://b.example") else (get (str "a") memory_a).0)
get-store_case = get-store new_v4 url_b false memory_a (str "a") store_ok

get-store_batch_case :
    (get (str "b") (store_batch new_v4 (url_b ∷ url_b ∷ []) memory_a).1).0
    ≡ over (batch_orig (str "b") (url_b ∷ url_b ∷ [])) (get (str "b") memory_a).0
get-store_batch_case = get-store_batch new_v4 (url_b ∷ url_b ∷ []) memory_a (str "b") batch_ok

new_v4_answers : (n : ℕ) → (id : Str) × (new_v4 n ≡ ok id)
new_v4_answers n = (n ∷ [], refl)

store_batch_refused_case : (store_batch new_v4 (url_b ∷ url_a ∷ []) memory_a).0 ≡ (
    if all (is_free memory_a.db) (url_b ∷ url_a ∷ [])
    then none
    else some (model_err already_exists))
store_batch_refused_case = store_batch_refused new_v4 (url_b ∷ url_a ∷ []) memory_a new_v4_answers

get-delete_user_urls_example :
    (get (str "a") (delete_user_urls (foreign_a ∷ url_a ∷ []) memory_a).1).0 ≡ (
      if is_requested (str "a") (foreign_a ∷ url_a ∷ []) (lookup (str "a") memory_a.db)
      then err (model_err deleted)
      else (get (str "a") memory_a).0)
get-delete_user_urls_example = get-delete_user_urls (foreign_a ∷ url_a ∷ []) memory_a (str "a")

run-IsWellFormed_example :
    IsWellFormed
      (run new_v4 new
        (stores url_a false ∷ stores_batch (url_b ∷ []) ∷ deletes (url_a ∷ []) ∷ [])).db
run-IsWellFormed_example =
    run-IsWellFormed new_v4 new
      (stores url_a false ∷ stores_batch (url_b ∷ []) ∷ deletes (url_a ∷ []) ∷ []) new-IsWellFormed

list_user_urls_iff_example :
    (urls : List Url) × ((list_user_urls (str "u") memory_a).0 ≡ ok urls)
    × (Any (λ u. url_a ≡ u) urls ↔ IsListed (str "u") memory_a.db url_a)
list_user_urls_iff_example = list_user_urls_iff (str "u") url_a memory_a memory_a-IsWellFormed

db_stats_lem_case :
    ((db_stats memory_a.db).urls ≡ length memory_a.db)
    × ((users : List Str) × ((db_stats memory_a.db).users ≡ length users)
        × HasNoDuplicates users
        × ((user : Str) → contains user users ≡ has_live user memory_a.db))
db_stats_lem_case = db_stats_lem memory_a.db (ground arith)
