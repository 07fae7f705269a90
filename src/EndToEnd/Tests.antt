-- ===== src/EndToEnd/Tests.antt =====
-- Shorten, Resolve and DeleteBatch over the in-memory storage on small inputs.
use shorty.Base.{
  List, all, true, Str, str, ℕ, ◌≡◌, refl, false, ◌&&◌, none, [], ◌∷◌, lookup, insert, length,
  str_eq, if◌then◌else◌,
}
use shorty.Errors.{Result, ok, err, model_err, deleted, returns, message}
use shorty.Model.{User, Url}
use shorty.Memory.{store_batch, draw_ids, put_batch, Memory, memory_storage, get, store}
use shorty.Generators.{rand_string}
use shorty.Generators.Tests.{counting, counting-IsIntn}
use shorty.Resolver.{resolve, is_path_byte, storage_result}
use shorty.Buffer.{new_flusher}
use shorty.Shortener.{
  BatchUrl, BatchShortened, shorten_batch, draw_urls, shortened, batch_stored, Service, ParsedUrl,
  World, shorten, shorten_parsed, shorten_stored, store_url, store_tries, store_drawn, store_answer,
  get_served_url, flusher_config, delete_batch, flush_round,
}
use shorty.EndToEnd.Links.{resolve-shorten, get-shorten}
use shorty.EndToEnd.Batch.{resolve-shorten_batch}
use shorty.Shortener.Batching.{IsBatch}
use shorty.Memory.Batch.{batch_orig, over}
use shorty.EndToEnd.Deletion.{get-delete_batch, names, is_owner}

abbrev pub new_v4 : ℕ → Result Str
new_v4 n = ok (n ∷ [])

abbrev pub service : Service
service = record {
  served_scheme = str "https";
  redirect_scheme = str "https";
  host = str "sho.rt";
  path_length = 2;
}

-- A URL is its scheme and what follows, if it has a known scheme.
abbrev pub parse : Str → Result ParsedUrl
parse s =
    if str_eq s (str "https://x")
    then ok (record { scheme = str "https"; text = s })
    else err (message (str "missing protocol scheme"))

abbrev pub user : User
user = record { id = str "u"; new = false }

abbrev pub world : Memory → World Memory
world m = record { store = m; flusher = new_flusher flusher_config; draws = 0 }

-- The first path that is drawn, 01, is taken by another user's record.
abbrev pub one_taken : Memory
one_taken = record {
  db =
      (
        str "01",
        record {
          uuid = str "0";
          short_url = str "01";
          original_url = str "https://y";
          user_id = str "v";
          is_deleted = false;
        },
      )
      ∷ [];
  drawn = 1;
}

pub shorten_second :
    (shorten
      (memory_storage new_v4)
      counting
      service
      parse
      user
      (str "https://x")
      (world one_taken)).0
    ≡ (str "https://sho.rt/23", none)
unfolding shorten shorten_parsed shorten_stored store_url store_tries store_drawn store_answer store
    get_served_url rand_string lookup insert str_eq
shorten_second = refl

resolve-shorten_example :
    (u : ParsedUrl) × (path : Str) × (parse (str "https://x") ≡ ok u)
    × (str "https://sho.rt/23" ≡ get_served_url service path)
    × (length path ≡ 2)
    × ((resolve get
          (b'/' ∷ path)
          (shorten
            (memory_storage new_v4)
            counting
            service
            parse
            user
            (str "https://x")
            (world one_taken)).1.store).0
        ≡ returns (ok u.text))
resolve-shorten_example =
    resolve-shorten new_v4 counting service parse user (str "https://x") (str "https://sho.rt/23")
      (world one_taken) counting-IsIntn shorten_second

found_before : (get (str "01") one_taken).0 ≡ ok (str "https://y")
unfolding get lookup str_eq
found_before = refl

get-shorten_case :
    (get
      (str "01")
      (shorten
        (memory_storage new_v4)
        counting
        service
        parse
        user
        (str "https://x")
        (world one_taken)).1.store).0
    ≡ ok (str "https://y")
get-shorten_case =
    get-shorten new_v4 counting service parse user (str "https://x") (str "01") (str "https://y")
      (world one_taken) found_before

-- The owner of 01 deletes it, with a key that is not stored.
abbrev owner : User
owner = record { id = str "v"; new = false }

open_queue : (world one_taken).flusher.shutdown ≡ false
unfolding new_flusher
open_queue = refl

empty_queue : (world one_taken).flusher.buf ≡ []
unfolding new_flusher
empty_queue = refl

get-delete_batch_example :
    (get
      (str "01")
      (flush_round
        (memory_storage new_v4)
        (delete_batch 7 owner (str "zz" ∷ str "01" ∷ []) (world one_taken)).1).store).0
    ≡ (if names (str "01") (str "zz" ∷ str "01" ∷ [])
          && is_owner (str "v") (lookup (str "01") one_taken.db)
        then err (model_err deleted)
        else (get (str "01") one_taken).0)
get-delete_batch_example =
    get-delete_batch new_v4 7 owner (str "zz") (str "01" ∷ []) (world one_taken) (str "01") refl
      open_queue empty_queue

abbrev batch : List BatchUrl
batch =
    record { id = str "1"; url = str "https://a" }
    ∷ record { id = str "2"; url = str "https://b" }
    ∷ []

abbrev shorts : List BatchShortened
shorts =
    record { id = str "1"; short = str "https://sho.rt/23" }
    ∷ record { id = str "2"; short = str "https://sho.rt/45" }
    ∷ []

-- The first path, 01, is taken, and the draws go on from there.
abbrev later_world : World Memory
later_world = record (world one_taken) { draws = 2 }

batch_answered :
    (shorten_batch (memory_storage new_v4) counting service user batch later_world).0 ≡ ok shorts
unfolding shorten_batch draw_urls shortened batch_stored get_served_url rand_string store_batch
    draw_ids put_batch lookup insert str_eq
batch_answered = refl

resolve-shorten_batch_example :
    (urls : List Url) × IsBatch service (str "u") batch urls shorts
    × ((key : Str)
        → all is_path_byte key ≡ true
        → (resolve get
            (b'/' ∷ key)
            (shorten_batch
              (memory_storage new_v4)
              counting
              service
              user
              batch
              later_world).1.store).0
          ≡ returns (storage_result (over (batch_orig key urls) (get key one_taken).0)))
resolve-shorten_batch_example =
    resolve-shorten_batch new_v4 counting service user batch shorts later_world counting-IsIntn
      batch_answered
