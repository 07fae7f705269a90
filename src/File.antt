-- ===== src/File.antt =====
-- internal/storage/file/file.go, and NewURLRecordFromBytes of internal/storage/memory/db/db.go. The
-- file is its bytes. `Codec` is what encoding/json, the UUID and URL parsers and the user id decoder
-- do with a record; what opening the file answers is an argument.
pub mod RoundTrip
mod Tests
pub mod Durability
pub mod Fuel
pub mod Races
pub mod Refinement
pub mod Outcomes
use shorty.Base.{
  Str, str, ℕ, zero, suc, Bool, true, false, Option, none, some, List, [], ◌∷◌, ◌++◌, insert, ◌==◌,
  if◌then◌else◌, length,
}
use shorty.Errors.{Err, Result, ok, err, message, wrap, Outcome, returns, panics}
use shorty.Model.{Url, UrlRecord, Storage}
use shorty.Memory.{Db, Memory, new_db, memory_storage, dump}

pub record Codec : Type 0 where
  -- json.Marshal of a record, and json.Unmarshal into a pointer to one, which the value null leaves
  -- nil
  pub marshal : UrlRecord → Result Str
  pub unmarshal : Str → Result (Option UrlRecord)
  -- uuid.FromString, url.Parse and user.NewFromUserID: their errors
  pub uuid_error : Str → Option Err
  pub url_error : Str → Option Err
  pub user_error : Str → Option Err

abbrev check : Option Err → Str → Result UrlRecord → Result UrlRecord
check none text r = r
check (some e) text r = err (wrap text e)

abbrev checked : Codec → Result (Option UrlRecord) → Outcome (Result UrlRecord)
checked c (err e) = returns (err (wrap (str "malformed json data") e))
checked c (ok none) = panics
checked c (ok (some r)) = returns (
    check (c.uuid_error r.uuid) (str "malformed uuid") (
      check (c.url_error r.original_url) (str "malformed url")
        (check (c.user_error r.user_id) (str "malformed user id") (ok r))))

-- NewURLRecordFromBytes; it reads fields of the record, and panics at nil.
unfoldable pub new_url_record_from_bytes : Codec → Str → Outcome (Result UrlRecord)
new_url_record_from_bytes c bytes = checked c (c.unmarshal bytes)

-- What (*bufio.Reader).ReadBytes('\n') returns and what is left to read: the bytes up to and with the
-- next newline, or all that are left and io.EOF (`false`).
pub read_bytes : Str → (Str × Bool) × Str
read_bytes [] = (([], false), [])
read_bytes (c ∷ s) =
    let later = read_bytes s in
    if c == 10 then ((c ∷ [], true), s) else ((c ∷ later.0.0, later.0.1), later.1)

-- data[:len(data)-1]
abbrev pub drop_last : Str → Str
drop_last [] = []
drop_last (c ∷ []) = []
drop_last (c ∷ d ∷ s) = c ∷ drop_last (d ∷ s)

-- readURLFromLine, at the end of the file (`none`) or with its result.
pub parse_line : Codec → Str × Bool → Option (Outcome (Result UrlRecord))
parse_line c ([], true) = some (new_url_record_from_bytes c [])
parse_line c ([], false) = none
parse_line c (b ∷ bytes, found) = some (new_url_record_from_bytes c (drop_last (b ∷ bytes)))

-- What a round of the loop of readURLsFromFile does with its line; `next` is the later rounds.
pub read_on :
    Option (Outcome (Result UrlRecord)) → Db → (Db → Outcome (Result Db)) → Outcome (Result Db)
read_on none db next = returns (ok db)
read_on (some panics) db next = panics
read_on (some (returns (err e))) db next = returns (err (wrap (str "cannot parse url record") e))
read_on (some (returns (ok r))) db next = next (insert r.short_url r db)

-- No error of Go: the loop of the model ran out of fuel.
abbrev pub out_of_fuel : Err
out_of_fuel = message (str "out of fuel")

-- The loop of readURLsFromFile, on fuel.
pub read_urls : Codec → ℕ → Str → Db → Outcome (Result Db)
read_urls c zero s db = returns (err out_of_fuel)
read_urls c (suc n) s db =
    let (line, rest) = read_bytes s in read_on (parse_line c line) db (read_urls c n rest)

pub read_urls_from_file : Codec → Result Str → Outcome (Result Db)
read_urls_from_file c (err e) = returns (err (wrap (str "cannot open file") e))
read_urls_from_file c (ok s) = read_urls c (suc (length s)) s new_db

pub add_line : Result Str → Str × Option Err → Str × Option Err
add_line (err e) later = ([], some (wrap (str "cannot marshal to json") e))
add_line (ok bytes) later = (bytes ++ (10 ∷ later.0), later.1)

-- The loop of dumpDB2File: the bytes written, and the error that ended it.
pub dump_lines : Codec → Db → Str × Option Err
dump_lines c [] = ([], none)
dump_lines c ((k, r) ∷ db) = add_line (c.marshal r) (dump_lines c db)

pub record File : Type 0 where
  pub memory : Memory
  pub changed : Bool
  pub shutdown : Bool
  -- the bytes of the file at `filePath`
  pub bytes : Str

abbrev opened_file : Outcome (Result Db) → Str → Outcome (Result File)
opened_file panics s = panics
opened_file (returns (err e)) s = returns (err e)
opened_file (returns (ok db)) s = returns (
    ok (record {
      memory = record { db = db; drawn = 0 };
      changed = false;
      shutdown = false;
      bytes = s;
    }))

-- New, from what opening and reading the file gives; the file that it opens is created if missing.
unfoldable open_storage : Codec → Result Str → Outcome (Result File)
open_storage c (err e) = opened_file (read_urls_from_file c (err e)) []
open_storage c (ok s) = opened_file (read_urls_from_file c (ok s)) s

abbrev shutting_down : Err
shutting_down = message (str "storage is shutting down")

abbrev memory_error : Err → Err
memory_error e = wrap (str "memory storage error") e

stored : File → (Str × Option Err) × Memory → (Str × Option Err) × File
stored f ((path, none), m) = ((str "", none), record f { memory = m; changed = true })
stored f ((path, some e), m) = ((str "", some (memory_error e)), record f { memory = m })

stored_batch : File → Option Err × Memory → Option Err × File
stored_batch f (none, m) = (none, record f { memory = m; changed = true })
stored_batch f (some e, m) = (some (memory_error e), record f { memory = m })

deleted : File → Result ℕ × Memory → Result ℕ × File
deleted f (ok n, m) = (ok n, record f { memory = m; changed = true })
deleted f (err e, m) = (err (memory_error e), record f { memory = m })

abbrev on_memory {ℓ} : {A : Type ℓ} → File → A × Memory → A × File
on_memory f (a, m) = (a, record f { memory = m })

module _ (new_v4 : ℕ → Result Str) where
  open memory_storage new_v4 use {
    store, store_batch, delete_user_urls, get, list_user_urls, ping, stats,
  }

  pub file_store : Url → Bool → File → (Str × Option Err) × File
  unfolding stored
  file_store url overwrite f =
      if f.shutdown
      then ((str "", some shutting_down), f)
      else stored f (store url overwrite f.memory)

  pub file_store_batch : List Url → File → Option Err × File
  unfolding stored_batch
  file_store_batch urls f =
      if f.shutdown then (some shutting_down, f) else stored_batch f (store_batch urls f.memory)

  pub file_delete_user_urls : List Url → File → Result ℕ × File
  unfolding deleted
  file_delete_user_urls urls f =
      if f.shutdown then (err shutting_down, f) else deleted f (delete_user_urls urls f.memory)

  -- Get, ListUserURLs, Ping and Stats are those of the embedded Memory.
  abbrev pub file_storage : Storage File
  file_storage = record {
    get = λ k f. on_memory f (get k f.memory);
    store = file_store;
    store_batch = file_store_batch;
    list_user_urls = λ u f. on_memory f (list_user_urls u f.memory);
    delete_user_urls = file_delete_user_urls;
    ping = λ f. on_memory f (ping f.memory);
    stats = λ f. on_memory f (stats f.memory);
  }

dumped : File → Str × Option Err → File
dumped f (s, none) = record f { bytes = s; changed = false }
dumped f (s, some e) = record f { bytes = s }

-- persist, with the error of opening the file, if any. Opening truncates it.
pub persist : Codec → Option Err → File → File
unfolding dumped
persist c open_error f =
    if f.changed
    then elim open_error [ some e ↦ f | none ↦ dumped f (dump_lines c (dump f.memory)) ]
    else f

-- The last round of maintainPersistence, after Close or the end of the context.
pub finish : Codec → Option Err → File → File
finish c open_error f = persist c open_error (record f { shutdown = true })
