-- ===== src/File/Durability.antt =====
-- The file against the database, over the calls and the last round of the saving loop
-- (internal/storage/file/file.go).
use shorty.Base.{
  Str, str, ℕ, ◌≡◌, refl, sym, ap, ◌∙◌, Bool, true, false, Option, none, some, List, All, if_both,
  if_split,
}
use shorty.Errors.{Err, Result, ok, err, returns}
use shorty.Model.{Url}
use shorty.Memory.{Memory, store, store_batch, delete_user_urls, dump}
use shorty.Memory.Storing.{store-failed}
use shorty.Memory.Batch.{store_batch-failed}
use shorty.Memory.Invariant.{IsWellFormed}
use shorty.File.{
  Codec, File, read_urls_from_file, dump_lines, shutting_down, stored, stored_batch, deleted,
  file_store, file_store_batch, file_delete_user_urls, dumped, persist, finish,
}
use shorty.File.RoundTrip.{IsCoded, read-dump}

-- While nothing is marked as changed, the file reads as the database.
pub record IsSynced (c : Codec) (f : File) : Type 0 where
  pub reads : f.changed ≡ false → read_urls_from_file c (ok f.bytes) ≡ returns (ok f.memory.db)

module _ (c : Codec) (f : File) where
  stored-IsSynced :
      (r : (Str × Option Err) × Memory)
      → ((e : Err) → r.0.1 ≡ some e → r.1.db ≡ f.memory.db)
      → IsSynced c f
      → IsSynced c (stored f r).1
  unfolding stored
  stored-IsSynced ((path, none), m) keep s = record { reads = λ h. cc }
  stored-IsSynced ((path, some e), m) keep s = record {
    reads = λ h. s.reads h ∙ ap (λ d. returns (ok d)) (sym (keep e refl));
  }

  stored_batch-IsSynced :
      (r : Option Err × Memory)
      → ((e : Err) → r.0 ≡ some e → r.1.db ≡ f.memory.db)
      → IsSynced c f
      → IsSynced c (stored_batch f r).1
  unfolding stored_batch
  stored_batch-IsSynced (none, m) keep s = record { reads = λ h. cc }
  stored_batch-IsSynced (some e, m) keep s = record {
    reads = λ h. s.reads h ∙ ap (λ d. returns (ok d)) (sym (keep e refl));
  }

  -- If the file reads as the database while nothing is marked as changed, then it does so after
  -- every call of Store, StoreBatch and DeleteUserURLs, failing or not.
  pub calls-IsSynced :
      (new_v4 : ℕ → Result Str) (url : Url) (overwrite : Bool) (urls : List Url)
      → IsSynced c f
      → IsSynced c (file_store new_v4 url overwrite f).1
        × IsSynced c (file_store_batch new_v4 urls f).1
        × IsSynced c (file_delete_user_urls new_v4 urls f).1
  unfolding file_store file_store_batch file_delete_user_urls
  calls-IsSynced new_v4 url overwrite urls s = (
    if_both (λ (r : (Str × Option Err) × File). IsSynced c r.1) f.shutdown _ _ s
        (stored-IsSynced (store new_v4 url overwrite f.memory)
          (store-failed new_v4 url overwrite f.memory) s),
    if_both (λ (r : Option Err × File). IsSynced c r.1) f.shutdown _ _ s
        (stored_batch-IsSynced (store_batch new_v4 urls f.memory)
          (store_batch-failed new_v4 urls f.memory) s),
    if_both (λ (r : Result ℕ × File). IsSynced c r.1) f.shutdown _ _ s
        (unfold deleted delete_user_urls in record { reads = λ h. cc }),
  )

  -- After shutdown every call that would change the storage is refused, and changes nothing.
  pub calls_refused :
      (new_v4 : ℕ → Result Str) (url : Url) (overwrite : Bool) (urls : List Url)
      → f.shutdown ≡ true
      → (file_store new_v4 url overwrite f ≡ ((str "", some shutting_down), f))
        × (file_store_batch new_v4 urls f ≡ (some shutting_down, f))
        × (file_delete_user_urls new_v4 urls f ≡ (err shutting_down, f))
  unfolding file_store file_store_batch file_delete_user_urls
  calls_refused new_v4 url overwrite urls h = (rw h refl, rw h refl, rw h refl)

pub delete_user_urls-IsSynced :
    (c : Codec) (f : File) (new_v4 : ℕ → Result Str) (urls : List Url)
    → f.shutdown ≡ false
    → IsSynced c (file_delete_user_urls new_v4 urls f).1
      × ((file_delete_user_urls new_v4 urls f).1.memory ≡ (delete_user_urls urls f.memory).1)
unfolding file_delete_user_urls deleted delete_user_urls
delete_user_urls-IsSynced c f new_v4 urls h = rw h (record { reads = λ h. cc }, refl)

module _ (c : Codec) where
  -- The last round closes the storage.
  shutdown-dumped : (f : File) (r : Str × Option Err) → (dumped f r).shutdown ≡ f.shutdown
  unfolding dumped
  shutdown-dumped f (s, none) = refl
  shutdown-dumped f (s, some e) = refl

  pub shutdown-finish : (f : File) → (finish c none f).shutdown ≡ true
  unfolding finish persist
  shutdown-finish f =
      if_both (λ (g : File). g.shutdown ≡ true) f.changed _ _
        (shutdown-dumped (record f { shutdown = true }) (dump_lines c (dump f.memory))) refl

  bytes-dumped : (f : File) (r : Str × Option Err) → (dumped f r).bytes ≡ r.0
  unfolding dumped
  bytes-dumped f (s, none) = refl
  bytes-dumped f (s, some e) = refl

  -- Let the file read as the database while nothing is marked as changed, and let the database be
  -- well-formed, its records written as lines that parse back. Then the last round before the
  -- storage stops, if the file can be opened, leaves a file that reads as the database, changed or
  -- not.
  pub finish-reads :
      (f : File)
      → IsSynced c f
      → IsWellFormed f.memory.db
      → All (λ e. IsCoded c e.1) f.memory.db
      → read_urls_from_file c (ok (finish c none f).bytes) ≡ returns (ok f.memory.db)
  unfolding finish persist dump
  finish-reads f s w h =
      if_split (λ (g : File). read_urls_from_file c (ok g.bytes) ≡ returns (ok f.memory.db))
        f.changed _ _
        (λ _.
          ap (λ b. read_urls_from_file c (ok b))
            (bytes-dumped (record f { shutdown = true }) (dump_lines c f.memory.db))
          ∙ (read-dump c f.memory.db w h).1)
        s.reads
