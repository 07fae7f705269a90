-- ===== src/File/Tests.antt =====
-- A file of one record, written as its short URL.
use shorty.Base.{
  Str, str, ℕ, ◌≡◌, ◌≢◌, refl, true, false, none, some, [], ◌∷◌, lookup, insert, str_eq, arith,
  if◌then◌else◌,
}
use shorty.Errors.{Err, Result, ok, err, message, wrap, returns, panics}
use shorty.Model.{Url, UrlRecord}
use shorty.Memory.{
  new_db, memory_storage, Db, Memory, store, delete_user_urls, delete_each, delete_one,
  delete_found,
}
use shorty.Memory.Invariant.{IsWellFormed}
use shorty.File.{
  out_of_fuel, read_urls, file_storage, Codec, File, new_url_record_from_bytes, read_urls_from_file,
  dump_lines, file_store, file_store_batch, file_delete_user_urls, finish,
}
use shorty.File.Races.{Saving, Change, url_stored, urls_deleted, Reach, start, IsQuiet, lost_change}
use shorty.File.RoundTrip.{IsCoded, read-dump, read_unterminated}
use shorty.File.Fuel.{read_urls_fuel}
use shorty.File.Refinement.{Refines, file_storage-Refines, data_of_file}
use shorty.File.Durability.{IsSynced, calls-IsSynced, finish-reads}

-- The record of the short URL ab.
abbrev record_ab : UrlRecord
record_ab = record {
  uuid = str "1";
  short_url = str "ab";
  original_url = str "https://x";
  user_id = str "u";
  is_deleted = false;
}

-- Only the short URL is written, and only ab is read.
abbrev codec : Codec
codec = record {
  marshal = λ r. ok r.short_url;
  unmarshal = λ s.
      if str_eq s (str "ab")
      then ok (some record_ab)
      else if str_eq s (str "null")
      then ok none
      else err (message (str "unexpected end"));
  uuid_error = λ s. none;
  url_error = λ s. none;
  user_error = λ s. none;
}

abbrev db : Db
db = (str "ab", record_ab) ∷ []

db-IsWellFormed : IsWellFormed db
unfolding lookup
db-IsWellFormed = record { distinct = (refl, tt); filed = (refl, tt) }

record_ab-IsCoded : IsCoded codec record_ab
unfolding new_url_record_from_bytes str_eq
record_ab-IsCoded = record {
  line = str "ab";
  marshals = refl;
  one_line = (omega arith, (omega arith, tt));
  parses = refl;
}

read-dump_example :
    ((dump_lines codec db).1 ≡ none)
    × (read_urls_from_file codec (ok (dump_lines codec db).0) ≡ returns (ok db))
read-dump_example = read-dump codec db db-IsWellFormed (record_ab-IsCoded, tt)

abbrev unexpected_end : Err
unexpected_end = wrap (str "malformed json data") (message (str "unexpected end"))

cut_off : new_url_record_from_bytes codec (str "a") ≡ returns (err unexpected_end)
unfolding new_url_record_from_bytes str_eq
cut_off = refl

-- The line null panics.
null_panics : new_url_record_from_bytes codec (str "null") ≡ panics
unfolding new_url_record_from_bytes str_eq
null_panics = refl

read_unterminated_case :
    read_urls_from_file codec (ok (str "ab"))
    ≡ returns (err (wrap (str "cannot parse url record") unexpected_end))
read_unterminated_case =
    read_unterminated codec (str "a") b'b' unexpected_end (omega arith, (omega arith, tt)) cut_off

-- The storage whose file is empty, with a record that is not saved.
abbrev changed : File
changed = record {
  memory = record { db = db; drawn = 1 };
  changed = true;
  shutdown = false;
  bytes = [];
}

abbrev stopped : File
stopped = record changed { shutdown = true }

changed-IsSynced : IsSynced codec changed
changed-IsSynced = record { reads = λ h. cc }

abbrev new_v4 : ℕ → Result Str
new_v4 n = ok (n ∷ [])

abbrev url : Url
url = record { short = str "c"; orig = str "https://y"; user_id = str "u"; ts = 0 }

calls-IsSynced_example :
    IsSynced codec (file_store new_v4 url false changed).1
    × IsSynced codec (file_store_batch new_v4 (url ∷ []) changed).1
    × IsSynced codec (file_delete_user_urls new_v4 (url ∷ []) changed).1
calls-IsSynced_example = calls-IsSynced codec changed new_v4 url false (url ∷ []) changed-IsSynced

finish-reads_example :
    read_urls_from_file codec (ok (finish codec none changed).bytes) ≡ returns (ok db)
finish-reads_example =
    finish-reads codec changed changed-IsSynced db-IsWellFormed (record_ab-IsCoded, tt)

-- The record of ab is deleted, and another one is stored.
abbrev one_url : Memory
one_url = record { db = db; drawn = 1 }

abbrev request : Url
request = record { short = str "ab"; orig = str ""; user_id = str "u"; ts = 0 }

abbrev one_deleted : Memory
one_deleted = (delete_user_urls (request ∷ []) one_url).1

abbrev two_urls : Memory
two_urls = (store new_v4 url false one_deleted).1

url_is_stored : Change new_v4 one_deleted two_urls
unfolding store delete_user_urls delete_each delete_one delete_found lookup insert str_eq
url_is_stored = url_stored url false refl

lost_change_example :
    (s : Saving) × Reach new_v4 (start one_url) s
    × IsQuiet s
    × (s.changed ≡ false)
    × (s.memory ≡ two_urls)
    × (s.file ≡ one_deleted.db)
lost_change_example =
    lost_change new_v4 one_url one_deleted two_urls (urls_deleted (request ∷ [])) url_is_stored

file_storage-Refines_example :
    Refines (file_storage new_v4) (memory_storage new_v4) data_of_file changed
file_storage-Refines_example = file_storage-Refines changed new_v4 refl

read_urls_fuel_example :
    (read_urls codec 9 (str "ab") new_db ≡ read_urls_from_file codec (ok (str "ab")))
    × (read_urls_from_file codec (ok (str "ab")) ≢ returns (err out_of_fuel))
read_urls_fuel_example = read_urls_fuel codec (str "ab") 9 (omega arith)
