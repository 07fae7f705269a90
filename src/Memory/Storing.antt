-- ===== src/Memory/Storing.antt =====
-- What Memory.Store does to what Memory.Get returns (internal/storage/memory/simple.go).
use shorty.Base.{
  ◌∙◌, Str, ℕ, ◌≡◌, refl, Bool, true, false, Option, none, some, arith, lookup, lookup-insert,
  str_eq, str_eq_iff, if◌then◌else◌, Option-cases, inl, inr, Bool-cases, ◌&&◌, not, str_eq_refl,
}
use shorty.Errors.{Result, ok, err, Err}
use shorty.Model.{Url, UrlRecord}
use shorty.Memory.{Memory, get, found, put_new, store, is_live, new_record}

module _ (new_v4 : ℕ → Result Str) (url : Url) (m : Memory) where
  get-put_new :
      (r : Result Str) (k : Str)
      → (put_new new_v4 url m r).0.1 ≡ none
      → (get k (put_new new_v4 url m r).1).0
        ≡ (if str_eq url.short k then ok url.orig else (get k m).0)
  unfolding get put_new
  get-put_new (err e) k h = cc
  get-put_new (ok id) k h = ground (arith, lookup-insert url.short k (new_record id url) m.db)

  lookup-put_new :
      (r : Result Str) (k : Str)
      → (put_new new_v4 url m r).0.1 ≡ none
      → (id : Str) × (lookup k (put_new new_v4 url m r).1.db
          ≡ (if str_eq url.short k then some (new_record id url) else lookup k m.db))
  unfolding put_new
  lookup-put_new (err e) k h = cc h
  lookup-put_new (ok id) k h = (id, lookup-insert url.short k (new_record id url) m.db)

module _ (new_v4 : ℕ → Result Str) (url : Url) (overwrite : Bool) (m : Memory) where
  -- After a Store that returned no error the key has a new record of the URL, and every other key
  -- the record that it had.
  pub lookup-store :
      (k : Str)
      → (store new_v4 url overwrite m).0.1 ≡ none
      → (id : Str) × (lookup k (store new_v4 url overwrite m).1.db
          ≡ (if str_eq url.short k then some (new_record id url) else lookup k m.db))
  unfolding store
  lookup-store k h = elim (Bool-cases (is_live (lookup url.short m.db) && not overwrite)) [
    | inl taken ↦ cc (rw taken at h)
    | inr free ↦ rw free (lookup-put_new new_v4 url m (new_v4 m.drawn) k (rw free at h))
  ]

  -- After a Store that returned no error the record of the key is the user's of the URL.
  pub owner-store :
      (store new_v4 url overwrite m).0.1 ≡ none
      → (v : UrlRecord) × (lookup url.short (store new_v4 url overwrite m).1.db ≡ some v)
        × (v.user_id ≡ url.user_id)
  owner-store h =
      let (id, stored) = lookup-store url.short h in
      (new_record id url, stored ∙ rw (str_eq_refl url.short) refl, refl)

  -- After a Store that returned no error the key resolves to the stored URL, and every other key
  -- resolves as before.
  pub get-store :
      (k : Str)
      → (store new_v4 url overwrite m).0.1 ≡ none
      → (get k (store new_v4 url overwrite m).1).0
        ≡ (if str_eq url.short k then ok url.orig else (get k m).0)
  unfolding store
  get-store k h = ground (arith, get-put_new new_v4 url m (new_v4 m.drawn) k)

  -- A Store that returned an error left the database as it was.
  pub store-failed :
      (e : Err)
      → (store new_v4 url overwrite m).0.1 ≡ some e
      → (store new_v4 url overwrite m).1.db ≡ m.db
  unfolding store put_new
  store-failed e h = ground arith

  pub store-free :
      overwrite ≡ false
      → (store new_v4 url overwrite m).0.1 ≡ none
      → is_live (lookup url.short m.db) ≡ false
  unfolding store
  store-free keep h = ground arith

  -- Without `overwrite` no Store changes what a key resolves to while its record is not deleted,
  -- whether the Store succeeds or not.
  store-keeps_live :
      (k : Str)
      → overwrite ≡ false
      → is_live (lookup k m.db) ≡ true
      → (get k (store new_v4 url overwrite m).1).0 ≡ (get k m).0
  unfolding get
  store-keeps_live k keep live = elim (Option-cases (store new_v4 url overwrite m).0.1) [
    | inl stored ↦
        ground (arith, get-store k stored, store-free keep stored, str_eq_iff url.short k)
    | inr (e, failed) ↦ ground (arith, store-failed e failed)
  ]

is_live_of_found : (o : Option UrlRecord) (v : Str) → found o ≡ ok v → is_live o ≡ true
is_live_of_found none v h = cc
is_live_of_found (some r) v h = ground arith

module _ (new_v4 : ℕ → Result Str) where
  -- A key that finds a URL finds it after every Store without `overwrite`.
  pub get-store_kept :
      (k v : Str) (url : Url) (m : Memory)
      → (get k m).0 ≡ ok v
      → (get k (store new_v4 url false m).1).0 ≡ ok v
  get-store_kept k v url m h =
      store-keeps_live new_v4 url false m k refl
        (is_live_of_found (lookup k m.db) v (unfold get in h))
      ∙ h
