-- ===== src/File/Refinement.antt =====
-- The file storage as a storage: what it answers and does to the data while it is open, against the
-- in-memory storage (internal/storage/file/file.go, internal/storage/memory/simple.go).
use shorty.Base.{Str, ℕ, ◌≡◌, refl, Bool, false, Option, none, some, List, arith}
use shorty.Errors.{Err, Result, ok, err, is}
use shorty.Model.{Url, Storage}
use shorty.Memory.{Memory, memory_storage, store, store_batch, delete_user_urls}
use shorty.File.{
  File, file_storage, file_store, file_store_batch, file_delete_user_urls, stored, stored_batch,
  deleted,
}

-- Both fail, with errors that errors.Is does not tell apart, or none does.
abbrev SameError : Option Err → Option Err → Type 0
SameError none none = Unit
SameError none (some e) = ⊥
SameError (some e) none = ⊥
SameError (some e) (some e') = (target : Err) → is e target ≡ is e' target

-- The same of results: the values are equal, or the errors are not told apart.
abbrev SameResult : {A : Type 0} → Result A → Result A → Type 0
SameResult (ok a) (ok b) = a ≡ b
SameResult (ok a) (err e) = ⊥
SameResult (err e) (ok b) = ⊥
SameResult (err e) (err e') = (target : Err) → is e target ≡ is e' target

-- What the operations of a storage do as seen by its clients, and what they leave of the data.
pub record Refines {S M : Type 0} (st : Storage S) (spec : Storage M) (data_of : S → M) (s : S)
    : Type 0 where
  same_get :
      (key : Str)
      → ((st.get key s).0 ≡ (spec.get key (data_of s)).0)
        × (data_of (st.get key s).1 ≡ (spec.get key (data_of s)).1)
  same_store :
      (url : Url) (overwrite : Bool)
      → SameError (st.store url overwrite s).0.1 (spec.store url overwrite (data_of s)).0.1
        × (data_of (st.store url overwrite s).1 ≡ (spec.store url overwrite (data_of s)).1)
  same_store_batch :
      (urls : List Url)
      → SameError (st.store_batch urls s).0 (spec.store_batch urls (data_of s)).0
        × (data_of (st.store_batch urls s).1 ≡ (spec.store_batch urls (data_of s)).1)
  same_list :
      (user_id : Str)
      → ((st.list_user_urls user_id s).0 ≡ (spec.list_user_urls user_id (data_of s)).0)
        × (data_of (st.list_user_urls user_id s).1 ≡ (spec.list_user_urls user_id (data_of s)).1)
  same_delete :
      (urls : List Url)
      → SameResult (st.delete_user_urls urls s).0 (spec.delete_user_urls urls (data_of s)).0
        × (data_of (st.delete_user_urls urls s).1 ≡ (spec.delete_user_urls urls (data_of s)).1)
  same_stats :
      ((st.stats s).0 ≡ (spec.stats (data_of s)).0)
      × (data_of (st.stats s).1 ≡ (spec.stats (data_of s)).1)
  same_ping :
      ((st.ping s).0 ≡ (spec.ping (data_of s)).0)
      × (data_of (st.ping s).1 ≡ (spec.ping (data_of s)).1)

abbrev pub data_of_file : File → Memory
data_of_file f = f.memory

module _ (f : File) where
  stored-Same :
      (r : (Str × Option Err) × Memory)
      → SameError (stored f r).0.1 r.0.1 × ((stored f r).1.memory ≡ r.1)
  unfolding stored
  stored-Same ((path, none), m) = (tt, refl)
  stored-Same ((path, some e), m) = ((λ target. refl), refl)

  stored_batch-Same :
      (r : Option Err × Memory)
      → SameError (stored_batch f r).0 r.0 × ((stored_batch f r).1.memory ≡ r.1)
  unfolding stored_batch
  stored_batch-Same (none, m) = (tt, refl)
  stored_batch-Same (some e, m) = ((λ target. refl), refl)

  deleted-Same :
      (r : Result ℕ × Memory) → SameResult (deleted f r).0 r.0 × ((deleted f r).1.memory ≡ r.1)
  unfolding deleted
  deleted-Same (ok n, m) = (refl, refl)
  deleted-Same (err e, m) = ((λ target. refl), refl)

  module _ (new_v4 : ℕ → Result Str) (open_ : f.shutdown ≡ false) where
    file_store_open :
        (url : Url) (overwrite : Bool)
        → file_store new_v4 url overwrite f ≡ stored f (store new_v4 url overwrite f.memory)
    unfolding file_store
    file_store_open url overwrite = ground arith

    file_store_batch_open :
        (urls : List Url)
        → file_store_batch new_v4 urls f ≡ stored_batch f (store_batch new_v4 urls f.memory)
    unfolding file_store_batch
    file_store_batch_open urls = ground arith

    file_delete_open :
        (urls : List Url)
        → file_delete_user_urls new_v4 urls f ≡ deleted f (delete_user_urls urls f.memory)
    unfolding file_delete_user_urls
    file_delete_open urls = ground arith

    -- While it is not shutting down, the file storage is the in-memory storage to its clients:
    -- every operation leaves the same data, with the same values, and errors that errors.Is does
    -- not tell apart. The path that Store returns is not compared.
    pub file_storage-Refines : Refines (file_storage new_v4) (memory_storage new_v4) data_of_file f
    file_storage-Refines = record {
      same_get = λ key. (refl, refl);
      same_store = λ url overwrite.
          rw (file_store_open url overwrite) (stored-Same (store new_v4 url overwrite f.memory));
      same_store_batch = λ urls.
          rw (file_store_batch_open urls) (stored_batch-Same (store_batch new_v4 urls f.memory));
      same_list = λ user_id. (refl, refl);
      same_delete =
          λ urls. rw (file_delete_open urls) (deleted-Same (delete_user_urls urls f.memory));
      same_stats = (refl, refl);
      same_ping = (refl, refl);
    }
