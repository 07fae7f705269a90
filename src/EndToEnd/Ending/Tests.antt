-- ===== src/EndToEnd/Ending/Tests.antt =====
-- One deletion that waits when the context ends.
use shorty.Base.{
  Str, str, ℕ, ◌≡◌, refl, true, false, none, some, [], ◌∷◌, lookup, insert, str_eq, arith, All,
  if◌then◌else◌,
}
use shorty.Errors.{Result, ok, err, message, returns}
use shorty.Model.{Url, UrlRecord}
use shorty.Memory.{Db, delete_user_urls, delete_each, delete_one, delete_found, mark_deleted}
use shorty.Memory.Invariant.{IsWellFormed}
use shorty.File.{Codec, File, read_urls_from_file, new_url_record_from_bytes}
use shorty.File.RoundTrip.{IsCoded}
use shorty.File.Durability.{IsSynced}
use shorty.Buffer.{new_flusher}
use shorty.Shortener.{World, delete_request, flusher_config}
use shorty.EndToEnd.Ending.{queue_first, storage_first, pending_deletions}

abbrev record_ab : UrlRecord
record_ab = record {
  uuid = str "1";
  short_url = str "ab";
  original_url = str "https://x";
  user_id = str "u";
  is_deleted = false;
}

-- The record is written as its short URL, with a mark where it is deleted.
abbrev codec : Codec
codec = record {
  marshal = λ r. ok (if r.is_deleted then str "abd" else str "ab");
  unmarshal = λ s.
      if str_eq s (str "ab")
      then ok (some record_ab)
      else if str_eq s (str "abd")
      then ok (some (mark_deleted record_ab))
      else err (message (str "unexpected end"));
  uuid_error = λ s. none;
  url_error = λ s. none;
  user_error = λ s. none;
}

abbrev new_v4 : ℕ → Result Str
new_v4 n = ok (n ∷ [])

abbrev db_of : UrlRecord → Db
db_of r = (str "ab", r) ∷ []

abbrev request : Url
request = delete_request (str "u") 7 (str "ab")

abbrev unsaved : File
unsaved = record {
  memory = record { db = db_of record_ab; drawn = 1 };
  changed = true;
  shutdown = false;
  bytes = [];
}

abbrev waiting : World File
waiting = record {
  store = unsaved;
  flusher = record (new_flusher flusher_config) { buf = request ∷ [] };
  draws = 0;
}

db-IsWellFormed : IsWellFormed (db_of record_ab)
unfolding lookup
db-IsWellFormed = record { distinct = (refl, tt); filed = (refl, tt) }

record_ab-IsCoded : IsCoded codec record_ab
unfolding new_url_record_from_bytes str_eq
record_ab-IsCoded = record {
  line = str "ab";
  marshals = refl;
  one_line = (omega arith, (omega arith, tt));
  parses = refl;
}

deleted_ab-IsCoded : IsCoded codec (mark_deleted record_ab)
unfolding new_url_record_from_bytes str_eq
deleted_ab-IsCoded = record {
  line = str "abd";
  marshals = refl;
  one_line = (omega arith, (omega arith, (omega arith, tt)));
  parses = refl;
}

deleted_db : (delete_user_urls (request ∷ []) unsaved.memory).1.db ≡ db_of (mark_deleted record_ab)
unfolding delete_user_urls delete_each delete_one delete_found lookup insert str_eq
deleted_db = refl

unsaved-IsSynced : IsSynced codec unsaved
unsaved-IsSynced = record { reads = λ h. cc }

deleted_db-IsCoded :
    All (λ e. IsCoded codec e.1) (delete_user_urls (request ∷ []) unsaved.memory).1.db
deleted_db-IsCoded = rw deleted_db (deleted_ab-IsCoded, tt)

still_open : waiting.store.shutdown ≡ false
still_open = refl

pending_deletions_example :
    (read_urls_from_file codec (ok (queue_first new_v4 codec waiting).bytes)
      ≡ returns (ok (delete_user_urls (request ∷ []) unsaved.memory).1.db))
    × (read_urls_from_file codec (ok (storage_first new_v4 codec waiting).bytes)
        ≡ returns (ok (db_of record_ab)))
pending_deletions_example =
    pending_deletions new_v4 codec waiting request [] refl still_open unsaved-IsSynced
      db-IsWellFormed (record_ab-IsCoded, tt) deleted_db-IsCoded
