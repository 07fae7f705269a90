-- ===== src/Shortener/Deletion.antt =====
-- DeleteBatch (internal/services/shortener/batch.go) and the round of the queue that carries it out.
use shorty.Base.{
  Str, ℕ, ◌≡◌, refl, ap, ◌∙◌, sym, ◌⊎◌, true, false, Option, none, some, List, [], ◌∷◌, ◌++◌, map,
  arith, append-nil, append_assoc, if◌then◌else◌,
}
use shorty.Errors.{Err, shortener_err, unauthorized, empty_batch}
use shorty.Model.{Url, User, Storage, is_new}
use shorty.Buffer.{Flusher, push, do_flush}
use shorty.Shortener.{
  World, delete_request, push_answer, push_shorts, delete_batch, delete_urls, delete_flushed,
  flush_round,
}

-- The queue accepts every element while it is not shutting down.
record IsPushed (f f' : Flusher Url) (urls : List Url) : Type 0 where
  appended : f'.buf ≡ f.buf ++ urls
  open_still : f'.shutdown ≡ false

push-IsPushed :
    (url : Url) (f : Flusher Url)
    → f.shutdown ≡ false
    → ((push url f).0 ≡ none) × IsPushed f (push url f).1 (url ∷ [])
unfolding push
push-IsPushed url f h = ground arith

push_answer-none : (r later : Option Err × Flusher Url) → r.0 ≡ none → push_answer r later ≡ later
unfolding push_answer
push_answer-none (o, f) later h = rw h refl

push_shorts-IsPushed :
    (user_id : Str) (ts : ℕ) (shorts : List Str) (f : Flusher Url)
    → f.shutdown ≡ false
    → ((push_shorts user_id ts shorts f).0 ≡ none)
      × IsPushed f (push_shorts user_id ts shorts f).1 (map (delete_request user_id ts) shorts)
unfolding push_shorts
push_shorts-IsPushed user_id ts [] f h =
    (refl, record { appended = sym (append-nil f.buf); open_still = h })
push_shorts-IsPushed user_id ts (short ∷ shorts) f h =
    let first = push (delete_request user_id ts short) f in
    let one = push-IsPushed (delete_request user_id ts short) f h in
    let rest = push_shorts-IsPushed user_id ts shorts first.1 one.1.open_still in
    rw (push_answer-none first (push_shorts user_id ts shorts first.1) one.0) (
      rest.0,
      record {
        appended =
            rest.1.appended
            ∙ ap (λ b. b ++ map (delete_request user_id ts) shorts) one.1.appended
            ∙ append_assoc f.buf (delete_request user_id ts short ∷ [])
                (map (delete_request user_id ts) shorts);
        open_still = rest.1.open_still;
      },
    )

module _ {S : Type 0} (now : ℕ) (u : User) (w : World S) where
  -- A user that was created during the request is refused as unauthorized, and otherwise an empty
  -- batch is refused as empty; nothing changes then.
  pub delete_batch_refused :
      (shorts : List Str)
      → (is_new u ≡ true) ⊎ (shorts ≡ [])
      → delete_batch now u shorts w
        ≡ (some (shortener_err (if is_new u then unauthorized else empty_batch)), w)
  unfolding delete_batch
  delete_batch_refused [] h = ground arith
  delete_batch_refused (short ∷ shorts) h = ground arith

  -- Any other batch of a queue that is not shutting down is queued whole, in its order and under the
  -- user's id, behind what the queue holds; the storage is not touched.
  pub delete_batch_queued :
      (short : Str) (shorts : List Str)
      → is_new u ≡ false
      → w.flusher.shutdown ≡ false
      → ((delete_batch now u (short ∷ shorts) w).0 ≡ none)
        × ((delete_batch now u (short ∷ shorts) w).1.flusher.buf
            ≡ w.flusher.buf ++ map (delete_request u.id now) (short ∷ shorts))
        × ((delete_batch now u (short ∷ shorts) w).1.store ≡ w.store)
  unfolding delete_batch
  delete_batch_queued short shorts old open_ =
      let pushed = push_shorts-IsPushed u.id now (short ∷ shorts) w.flusher open_ in
      rw old (pushed.0, pushed.1.appended, refl)

module _ {S : Type 0} (st : Storage S) where
  -- A round of the loop hands a buffer that is not empty to the storage.
  pub store-flush_round :
      (w : World S) (url : Url) (urls : List Url)
      → w.flusher.buf ≡ url ∷ urls
      → (flush_round st w).store ≡ (st.delete_user_urls (url ∷ urls) w.store).1
  unfolding flush_round do_flush delete_flushed delete_urls
  store-flush_round w url urls h = ground arith
