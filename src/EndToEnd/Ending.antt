-- ===== src/EndToEnd/Ending.antt =====
-- The end of the context, which ends the loop of the queue (internal/buffer/buffer.go) and that of
-- the file storage (internal/storage/file/file.go), in either order.
mod Tests
use shorty.Base.{Str, ℕ, ◌≡◌, ap, ◌∙◌, false, none, List, ◌∷◌, All}
use shorty.Errors.{Result, ok, returns}
use shorty.Model.{Url}
use shorty.Memory.{delete_user_urls}
use shorty.Memory.Invariant.{IsWellFormed, delete_user_urls-IsWellFormed}
use shorty.File.{Codec, File, file_storage, file_delete_user_urls, read_urls_from_file, finish}
use shorty.File.RoundTrip.{IsCoded}
use shorty.File.Durability.{
  IsSynced, calls_refused, delete_user_urls-IsSynced, shutdown-finish, finish-reads,
}
use shorty.Shortener.{World, flush_round}
use shorty.Shortener.Deletion.{store-flush_round}

module _ (new_v4 : ℕ → Result Str) (c : Codec) where
  -- The storage after the last rounds of both loops, the queue's first.
  abbrev pub queue_first : World File → File
  queue_first w = finish c none (flush_round (file_storage new_v4) w).store

  -- The same, the file storage's first.
  abbrev pub storage_first : World File → File
  storage_first w =
      (flush_round (file_storage new_v4) (record w { store = finish c none w.store })).store

  -- Let deletions wait in the queue when the context ends, over a file storage that is open and
  -- well-formed, whose file can be opened, and reads as its database while nothing is marked as
  -- changed, and whose records, before and after the deletions, are written as lines that parse
  -- back. If the queue's last round comes before that of the file storage, the file reads as the
  -- database with the deletions; if it comes after it, the file reads as the database without them:
  -- they are lost.
  pub pending_deletions :
      (w : World File) (url : Url) (urls : List Url)
      → w.flusher.buf ≡ url ∷ urls
      → w.store.shutdown ≡ false
      → IsSynced c w.store
      → IsWellFormed w.store.memory.db
      → All (λ e. IsCoded c e.1) w.store.memory.db
      → All (λ e. IsCoded c e.1) (delete_user_urls (url ∷ urls) w.store.memory).1.db
      → (read_urls_from_file c (ok (queue_first w).bytes)
          ≡ returns (ok (delete_user_urls (url ∷ urls) w.store.memory).1.db))
        × (read_urls_from_file c (ok (storage_first w).bytes) ≡ returns (ok w.store.memory.db))
  pending_deletions w url urls pending open_ synced filed coded coded' =
      let (synced', same) = delete_user_urls-IsSynced c w.store new_v4 (url ∷ urls) open_ in
      let flushed = store-flush_round (file_storage new_v4) w url urls pending in
      let refused =
        calls_refused c (finish c none w.store) new_v4 url false (url ∷ urls)
          (shutdown-finish c w.store) in
      let late =
        store-flush_round (file_storage new_v4) (record w { store = finish c none w.store }) url
          urls pending in
      (
        ap (λ f. read_urls_from_file c (ok (finish c none f).bytes)) flushed
            ∙ finish-reads c (file_delete_user_urls new_v4 (url ∷ urls) w.store).1 synced'
                (rw same (delete_user_urls-IsWellFormed (url ∷ urls) w.store.memory filed))
                (rw same coded')
            ∙ ap (λ m. returns (ok m.db)) same,
        ap (λ f. read_urls_from_file c (ok f.bytes)) (late ∙ ap (λ r. r.1) refused.2)
            ∙ finish-reads c w.store synced filed coded,
      )
