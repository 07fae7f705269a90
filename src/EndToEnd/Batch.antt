-- ===== src/EndToEnd/Batch.antt =====
-- ShortenBatch, then Resolve, over the in-memory storage (internal/services/shortener/batch.go,
-- internal/storage/memory/simple.go, internal/services/resolver/resolver.go).
use shorty.Base.{Str, ℕ, ◌≡◌, refl, true, List, ◌∷◌, all}
use shorty.Errors.{Result, ok, returns}
use shorty.Model.{Url, User}
use shorty.Memory.{Memory, memory_storage, get}
use shorty.Memory.Batch.{batch_orig, over, get-store_batch}
use shorty.Generators.Alphabet.{IsIntn}
use shorty.Resolver.{resolve, is_path_byte, storage_result}
use shorty.Resolver.Paths.{resolve-eq-get}
use shorty.Shortener.{Service, World, BatchUrl, BatchShortened, shorten_batch}
use shorty.Shortener.Batching.{IsBatch, shorten_batch-IsBatchShortened}

module _ (new_v4 : ℕ → Result Str) (intn : ℕ → ℕ → ℕ) (svc : Service) where
  -- Where Intn keeps its bound: after a ShortenBatch that returned a list, every valid path
  -- resolves to the URL of the last entry that was stored under it, and as before if there is
  -- none; the entries stored, and the list, correspond to the batch in their order.
  pub resolve-shorten_batch :
      (u : User) (batch : List BatchUrl) (shorts : List BatchShortened) (w : World Memory)
      → IsIntn intn
      → (shorten_batch (memory_storage new_v4) intn svc u batch w).0 ≡ ok shorts
      → (urls : List Url) × IsBatch svc u.id batch urls shorts
        × ((key : Str)
            → all is_path_byte key ≡ true
            → (resolve get
                (b'/' ∷ key)
                (shorten_batch (memory_storage new_v4) intn svc u batch w).1.store).0
              ≡ returns (storage_result (over (batch_orig key urls) (get key w.store).0)))
  resolve-shorten_batch u batch shorts w range h =
      let done =
        shorten_batch-IsBatchShortened (memory_storage new_v4) intn svc u batch shorts w range h in
      (
        done.urls,
        done.entries,
        λ key valid.
            rw
              (
                resolve-eq-get get key _ valid,
                done.result,
                get-store_batch new_v4 done.urls w.store key done.succeeded,
              )
              refl,
      )
