-- ===== src/Links/Stores.antt =====
-- The storages of links (internal/storage/memory/simple.go, internal/storage/file/file.go,
-- internal/storage/database/database.go).
use shorty.Base.{
  Str, ℕ, ◌≡◌, refl, ap, sym, ◌∙◌, Bool, true, false, Option, none, some, arith, lookup, str_eq,
  if◌then◌else◌, inl, inr,
}
use shorty.Errors.{Result}
use shorty.Model.{Url, UrlRecord}
use shorty.Memory.{Memory, memory_storage, get, found, is_live, new_record}
use shorty.Memory.Storing.{store-free, store-failed, lookup-store}
use shorty.File.{File, file_storage}
use shorty.File.Outcomes.{file_store-Outcomes}
use shorty.Database.{Pool, database_storage}
use shorty.Database.Table.{Rows, IsTable, FitsTable, row_view, database_storage-LinkStore}
use shorty.Links.{Entry, live, gone, View, entry_answer, is_live_entry, LinkStoreFor, LinkStore}

abbrev record_entry : Option UrlRecord → Option Entry
record_entry none = none
record_entry (some r) = if r.is_deleted then some gone else some (live r.original_url)

abbrev pub memory_view : View Memory
memory_view m k = record_entry (lookup k m.db)

abbrev pub file_view : View File
file_view f k = memory_view f.memory k

found-answer : (o : Option UrlRecord) → found o ≡ entry_answer (record_entry o)
found-answer none = refl
found-answer (some r) = ground arith

is_live-entry : (o : Option UrlRecord) → is_live o ≡ is_live_entry (record_entry o)
is_live-entry none = refl
is_live-entry (some r) = ground arith

stored_entry :
    (url : Url) (id : Str) (b : Bool) (o : Option UrlRecord)
    → record_entry (if b then some (new_record id url) else o)
      ≡ (if b then some (live url.orig) else record_entry o)
stored_entry url id true o = refl
stored_entry url id false o = refl

module _ (new_v4 : ℕ → Result Str) where
  pub memory_storage-LinkStore : LinkStore (memory_storage new_v4) memory_view
  unfolding get
  memory_storage-LinkStore = record {
    get_answer = λ k m h. found-answer (lookup k m.db);
    get_keeps = λ k j m. refl;
    store_free = λ url m fits done.
        sym (is_live-entry (lookup url.short m.db)) ∙ store-free new_v4 url false m refl done;
    store_done = λ url m fits done k.
        let (id, stored) = lookup-store new_v4 url false m k done in
        ap record_entry stored ∙ stored_entry url id (str_eq url.short k) (lookup k m.db);
    store_failed = λ url m e failed k.
        ap (λ db. record_entry (lookup k db)) (store-failed new_v4 url false m e failed);
  }

  abbrev entry_in : Str → Memory → Option Entry
  entry_in k m = memory_view m k

  -- The file storage is a storage of links also while it shuts down.
  file_storage-LinkStore : LinkStore (file_storage new_v4) file_view
  unfolding get
  file_storage-LinkStore =
      let mem = memory_storage-LinkStore in
      record {
        get_answer = λ k f h. mem.get_answer k f.memory h;
        get_keeps = λ k j f. refl;
        store_free = λ url f fits done. elim (file_store-Outcomes new_v4 url false f) [
          | inl (_, stored, _) ↦ mem.store_free url f.memory tt stored
          | inr (inl (e, failed, _)) ↦ cc (done, failed)
          | inr (inr (e, failed, _)) ↦ cc (done, failed)
        ];
        store_done = λ url f fits done k. elim (file_store-Outcomes new_v4 url false f) [
          | inl (_, stored, same) ↦ ap (entry_in k) same ∙ mem.store_done url f.memory tt stored k
          | inr (inl (e, failed, _)) ↦ cc (done, failed)
          | inr (inr (e, failed, _)) ↦ cc (done, failed)
        ];
        store_failed = λ url f e failed k. elim (file_store-Outcomes new_v4 url false f) [
          | inl (done, _, _) ↦ cc (done, failed)
          | inr (inl (_, _, (d, unstored, same))) ↦
              ap (entry_in k) same ∙ mem.store_failed url f.memory d unstored k
          | inr (inr (_, _, same)) ↦ ap (entry_in k) same
        ];
      }

  -- The in-memory storage, the file storage, also while it shuts down, and, for URLs whose short and
  -- original URL fit into their columns, the PostgreSQL storage over a table, are storages of links:
  -- maps from keys to entries that Get reads at keys of letters and digits, and in which a Store
  -- without overwriting puts one entry under a key that has no live one, if it returns no error; one
  -- that returns an error changes nothing, whether the URL fits or not.
  pub storages-LinkStore :
      {S : Type 0} (pool : Pool S) (rows : Rows S) (now : ℕ)
      → IsTable pool rows
      → LinkStore (memory_storage new_v4) memory_view
        × LinkStore (file_storage new_v4) file_view
        × LinkStoreFor FitsTable (database_storage pool now) (row_view rows)
  storages-LinkStore pool rows now table = (
    memory_storage-LinkStore,
    file_storage-LinkStore,
    database_storage-LinkStore pool rows table now,
  )
