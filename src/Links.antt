-- ===== src/Links.antt =====
-- What the services rely on in a storage of links (the interface Storage of internal/app/app.go, as
-- internal/services/shortener and internal/services/resolver use Store and Get of it).
pub mod Clients
pub mod Stores
mod Tests
use shorty.Base.{Str, ◌≡◌, Bool, true, false, Option, none, some, str_eq, if◌then◌else◌, all}
use shorty.Errors.{Err, Result, ok, err, model_err, not_found, deleted}
use shorty.Generators.Alphabet.{is_alphanumeric}
use shorty.Model.{Url, Storage}

-- What stands under a key: the original URL, or a deleted one.
pub data Entry : Type 0 where
  live : Str → Entry
  gone : Entry

abbrev pub View : Type 0 → Type 0
View S = S → Str → Option Entry

-- What Get returns for it.
abbrev pub entry_answer : Option Entry → Result Str
entry_answer none = err (model_err not_found)
entry_answer (some gone) = err (model_err deleted)
entry_answer (some (live url)) = ok url

abbrev pub is_live_entry : Option Entry → Bool
is_live_entry none = false
is_live_entry (some gone) = false
is_live_entry (some (live url)) = true

-- A storage as a map from keys to entries: Get reads the map, at keys of letters and digits, as
-- RandString makes them; a Store without overwriting that returns no error, of a URL that fits, finds
-- the key without a live entry and puts one there; one that returns an error changes nothing.
pub record LinkStoreFor {S : Type 0} (Fits : Url → Type 0) (st : Storage S) (view : View S)
    : Type 0 where
  pub get_answer :
      (k : Str) (s : S) → all is_alphanumeric k ≡ true → (st.get k s).0 ≡ entry_answer (view s k)
  pub get_keeps : (k j : Str) (s : S) → view (st.get k s).1 j ≡ view s j
  pub store_free :
      (url : Url) (s : S)
      → Fits url
      → (st.store url false s).0.1 ≡ none
      → is_live_entry (view s url.short) ≡ false
  pub store_done :
      (url : Url) (s : S)
      → Fits url
      → (st.store url false s).0.1 ≡ none
      → (k : Str)
      → view (st.store url false s).1 k
        ≡ (if str_eq url.short k then some (live url.orig) else view s k)
  pub store_failed :
      (url : Url) (s : S) (e : Err)
      → (st.store url false s).0.1 ≡ some e
      → (k : Str) → view (st.store url false s).1 k ≡ view s k

-- The same where every URL fits.
abbrev pub LinkStore : {S : Type 0} → Storage S → View S → Type 0
LinkStore st view = LinkStoreFor (λ url. Unit {0}) st view
