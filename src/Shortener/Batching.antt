-- ===== src/Shortener/Batching.antt =====
-- ShortenBatch (internal/services/shortener/batch.go) over any storage.
use shorty.Base.{Str, ℕ, ◌≡◌, refl, sym, ap, true, Option, none, some, List, [], ◌∷◌, all, length}
use shorty.Errors.{Err, ok}
use shorty.Model.{Url, User, Storage}
use shorty.Generators.{rand_string}
use shorty.Generators.Alphabet.{IsIntn, is_alphanumeric, rand_string_lem}
use shorty.Shortener.{
  Service, World, BatchUrl, BatchShortened, draw_urls, shortened, batch_stored, shorten_batch,
  get_served_url,
}

module _ (svc : Service) (user_id : Str) where
  -- An entry of a batch, the URL that is stored for it, and the entry of the result.
  pub record IsEntry (b : BatchUrl) (url : Url) (s : BatchShortened) : Type 0 where
    same_id : s.id ≡ b.id
    pub served : s.short ≡ get_served_url svc url.short
    same_orig : url.orig ≡ b.url
    pub owner : url.user_id ≡ user_id
    pub long : length url.short ≡ svc.path_length
    alphanumeric : all is_alphanumeric url.short ≡ true

  -- The three lists have the same length, and their entries correspond in order.
  abbrev pub IsBatch : List BatchUrl → List Url → List BatchShortened → Type 0
  IsBatch [] [] [] = Unit
  IsBatch [] [] (s ∷ ss) = ⊥
  IsBatch [] (url ∷ urls) ss = ⊥
  IsBatch (b ∷ batch) [] ss = ⊥
  IsBatch (b ∷ batch) (url ∷ urls) [] = ⊥
  IsBatch (b ∷ batch) (url ∷ urls) (s ∷ ss) = IsEntry b url s × IsBatch batch urls ss

module _ {S : Type 0} (st : Storage S) (intn : ℕ → ℕ → ℕ) (svc : Service) where
  draw_urls-IsBatch :
      (user_id : Str) (batch : List BatchUrl) (draws : ℕ)
      → IsIntn intn
      → IsBatch svc user_id batch
          (draw_urls st intn svc user_id batch draws).0
          (shortened st intn svc batch (draw_urls st intn svc user_id batch draws).0)
  unfolding draw_urls shortened
  draw_urls-IsBatch user_id [] draws range = tt
  draw_urls-IsBatch user_id (b ∷ batch) draws range =
      let path = rand_string_lem intn range svc.path_length draws in
      (
        record {
          same_id = refl;
          served = refl;
          same_orig = refl;
          owner = refl;
          long = path.0;
          alphanumeric = path.1;
        },
        draw_urls-IsBatch user_id batch (rand_string intn svc.path_length draws).1 range,
      )

  -- What ShortenBatch has done where it returns a list.
  pub record IsBatchShortened (u : User) (batch : List BatchUrl) (shorts : List BatchShortened)
      (before after : S) : Type 0 where
    pub urls : List Url
    pub entries : IsBatch svc u.id batch urls shorts
    pub succeeded : (st.store_batch urls before).0 ≡ none
    pub result : after ≡ (st.store_batch urls before).1

  batch_stored-IsBatchShortened :
      (u : User) (batch : List BatchUrl) (shorts : List BatchShortened) (urls : List Url)
      (w : World S) (r : Option Err × S) (before : S)
      → IsBatch svc u.id batch urls (shortened st intn svc batch urls)
      → r ≡ st.store_batch urls before
      → (batch_stored st intn svc batch urls w r).0 ≡ ok shorts
      → IsBatchShortened u batch shorts before (batch_stored st intn svc batch urls w r).1.store
  unfolding batch_stored
  batch_stored-IsBatchShortened u batch shorts urls w (some e, s) before entries r h = cc h
  batch_stored-IsBatchShortened u batch shorts urls w (none, s) before entries r h =
      let same : shortened st intn svc batch urls ≡ shorts = cc h in
      record {
        urls = urls;
        entries = rw⁻¹ same entries;
        succeeded = ap (λ (x : Option Err × S). x.0) (sym r);
        result = ap (λ (x : Option Err × S). x.1) r;
      }

  -- A ShortenBatch that returned a list has stored, in one StoreBatch that returned no error, a URL
  -- for each entry of the batch: the entry's, for the user, under a path of the configured length,
  -- of letters and digits only. The list has the ids of the batch in their order, each with the
  -- served URL of its path.
  pub shorten_batch-IsBatchShortened :
      (u : User) (batch : List BatchUrl) (shorts : List BatchShortened) (w : World S)
      → IsIntn intn
      → (shorten_batch st intn svc u batch w).0 ≡ ok shorts
      → IsBatchShortened u batch shorts w.store (shorten_batch st intn svc u batch w).1.store
  unfolding shorten_batch
  shorten_batch-IsBatchShortened u batch shorts w range h =
      batch_stored-IsBatchShortened u batch shorts (draw_urls st intn svc u.id batch w.draws).0 _ _
        w.store (draw_urls-IsBatch u.id batch w.draws range) refl h
