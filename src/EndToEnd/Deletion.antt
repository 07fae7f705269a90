-- ===== src/EndToEnd/Deletion.antt =====
-- DeleteBatch, the round of the queue that carries it out, and Get
-- (internal/services/shortener/batch.go, internal/buffer/buffer.go,
-- internal/storage/memory/simple.go).
use shorty.Base.{
  Str, ℕ, ◌≡◌, refl, ap, ◌∙◌, Bool, false, Option, none, some, List, [], ◌∷◌, ◌++◌, map, arith, any,
  lookup, ◌&&◌, if◌then◌else◌, str_eq,
}
use shorty.Errors.{Result, err, model_err, deleted}
use shorty.Model.{UrlRecord, User, is_new}
use shorty.Memory.{Memory, memory_storage, get}
use shorty.Memory.Deletion.{requested, is_requested, get-delete_user_urls}
use shorty.Shortener.{World, delete_request, delete_batch, flush_round}
use shorty.Shortener.Deletion.{delete_batch_queued, store-flush_round}

abbrev pub names : Str → List Str → Bool
names k shorts = any (λ short. str_eq short k) shorts

-- The record found, if any, is this user's.
abbrev pub is_owner : Str → Option UrlRecord → Bool
is_owner user_id none = false
is_owner user_id (some r) = str_eq r.user_id user_id

requested-map :
    (k user_id : Str) (ts : ℕ) (r : UrlRecord) (shorts : List Str)
    → requested k r (map (delete_request user_id ts) shorts)
      ≡ names k shorts && str_eq r.user_id user_id
requested-map k user_id ts r [] = refl
requested-map k user_id ts r (short ∷ shorts) = ground (arith, requested-map k user_id ts r shorts)

is_requested-map :
    (k user_id : Str) (ts : ℕ) (shorts : List Str) (o : Option UrlRecord)
    → is_requested k (map (delete_request user_id ts) shorts) o
      ≡ names k shorts && is_owner user_id o
is_requested-map k user_id ts shorts none = ground arith
is_requested-map k user_id ts shorts (some r) = requested-map k user_id ts r shorts

module _ (new_v4 : ℕ → Result Str) (now : ℕ) (u : User) (short : Str) (shorts : List Str) where
  abbrev after : World Memory → World Memory
  after w = flush_round (memory_storage new_v4) (delete_batch now u (short ∷ shorts) w).1

  -- After a DeleteBatch, of one short URL at least, by a user that is not new, on an empty queue
  -- that is not shutting down, and one round of the queue, the keys that the batch names and that
  -- are the user's are found deleted, and every other key is found as before.
  pub get-delete_batch :
      (w : World Memory) (k : Str)
      → is_new u ≡ false
      → w.flusher.shutdown ≡ false
      → w.flusher.buf ≡ []
      → (get k (after w).store).0 ≡ (
          if names k (short ∷ shorts) && is_owner u.id (lookup k w.store.db)
          then err (model_err deleted)
          else (get k w.store).0)
  get-delete_batch w k old open_ empty =
      let queued = delete_batch_queued now u w short shorts old open_ in
      let stored =
        store-flush_round (memory_storage new_v4) (delete_batch now u (short ∷ shorts) w).1
          (delete_request u.id now short) (map (delete_request u.id now) shorts)
          (queued.1 ∙ ap (λ b. b ++ map (delete_request u.id now) (short ∷ shorts)) empty) in
      rw (
        stored,
        queued.2,
        get-delete_user_urls (map (delete_request u.id now) (short ∷ shorts)) w.store k,
        is_requested-map k u.id now (short ∷ shorts) (lookup k w.store.db),
      )
