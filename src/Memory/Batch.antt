-- ===== src/Memory/Batch.antt =====
-- Memory.StoreBatch (internal/storage/memory/simple.go): what Get returns after it, and which batches
-- are refused.
use shorty.Base.{
  Str, ℕ, suc, ◌≡◌, refl, Bool, not, Option, none, some, List, [], ◌∷◌, arith, lookup, insert,
  lookup-insert, length, all, str_eq, if◌then◌else◌,
}
use shorty.Errors.{Result, ok, err, Err, model_err, already_exists}
use shorty.Model.{Url}
use shorty.Memory.{
  Db, Memory, get, found, store_batch, draw_ids, put_batch, is_live, new_record, finish_batch,
}

-- The original URL that a batch gives to a key: that of the last entry with this key.
abbrev pub batch_orig : Str → List Url → Option Str
batch_orig k [] = none
batch_orig k (url ∷ urls) = elim (batch_orig k urls) [
  | some orig ↦ some orig
  | none ↦ if str_eq url.short k then some url.orig else none
]

-- No record of this key, or a deleted one.
abbrev pub is_free : Db → Url → Bool
is_free db url = not (is_live (lookup url.short db))

abbrev failure : Result (List Str) → Option Err
failure (ok ids) = none
failure (err e) = some e

abbrev pub over : Option Str → Result Str → Result Str
over none before = before
over (some orig) before = ok orig

found-put_batch :
    (urls : List Url) (ids : List Str) (db : Db) (k : Str)
    → length ids ≡ length urls
    → found (lookup k (put_batch urls ids db)) ≡ over (batch_orig k urls) (found (lookup k db))
unfolding put_batch
found-put_batch [] ids db k h = refl
found-put_batch (url ∷ urls) [] db k h = absurd (omega arith)
found-put_batch (url ∷ urls) (id ∷ ids) db k h = ground (
  arith,
  lookup-insert url.short k (new_record id url) db,
  found-put_batch urls ids (insert url.short (new_record id url) db) k,
)

get-finish_batch :
    (urls : List Url) (m : Memory) (k : Str) (r : Result (List Str) × ℕ)
    → ((ids : List Str) → r.0 ≡ ok ids → length ids ≡ length urls)
    → (finish_batch urls m r).0 ≡ none
    → (get k (finish_batch urls m r).1).0 ≡ over (batch_orig k urls) (get k m).0
unfolding get finish_batch
get-finish_batch urls m k (err e, n) long h = cc
get-finish_batch urls m k (ok ids, n) long h = found-put_batch urls ids m.db k (long ids refl)

module _ (new_v4 : ℕ → Result Str) where
  length-draw_ids :
      (urls : List Url) (db : Db) (n : ℕ) (ids : List Str)
      → (draw_ids new_v4 urls db n).0 ≡ ok ids
      → length ids ≡ length urls
  unfolding draw_ids
  length-draw_ids [] db n ids h = ground arith
  length-draw_ids (url ∷ urls) db n [] h = ground arith
  length-draw_ids (url ∷ urls) db n (id ∷ ids) h =
      ground (arith, length-draw_ids urls db (suc n) ids)

  -- After a StoreBatch that returned no error every key of the batch resolves to the original URL
  -- of its last entry, and every other key as before.
  pub get-store_batch :
      (urls : List Url) (m : Memory) (k : Str)
      → (store_batch new_v4 urls m).0 ≡ none
      → (get k (store_batch new_v4 urls m).1).0 ≡ over (batch_orig k urls) (get k m).0
  unfolding store_batch
  get-store_batch urls m k h =
      get-finish_batch urls m k (draw_ids new_v4 urls m.db m.drawn)
        (length-draw_ids urls m.db m.drawn) h

  -- A StoreBatch that returned an error stored nothing.
  pub store_batch-failed :
      (urls : List Url) (m : Memory) (e : Err)
      → (store_batch new_v4 urls m).0 ≡ some e
      → (store_batch new_v4 urls m).1.db ≡ m.db
  unfolding store_batch
  store_batch-failed urls m e h = ground arith

  draw_ids_refused :
      ((n : ℕ) → (id : Str) × (new_v4 n ≡ ok id))
      → (urls : List Url) (db : Db) (n : ℕ)
      → failure (draw_ids new_v4 urls db n).0
        ≡ (if all (is_free db) urls then none else some (model_err already_exists))
  unfolding draw_ids
  draw_ids_refused gen [] db n = refl
  draw_ids_refused gen (url ∷ urls) db n =
      ground (arith, gen n, draw_ids_refused gen urls db (suc n))

  -- Where the generator of identifiers does not fail, StoreBatch returns no error exactly when no
  -- key of the batch has a record that is not deleted, and "already exists" otherwise.
  pub store_batch_refused :
      (urls : List Url) (m : Memory)
      → ((n : ℕ) → (id : Str) × (new_v4 n ≡ ok id))
      → (store_batch new_v4 urls m).0
        ≡ (if all (is_free m.db) urls then none else some (model_err already_exists))
  unfolding store_batch
  store_batch_refused urls m gen = ground (arith, draw_ids_refused gen urls m.db m.drawn)
