-- ===== src/Buffer/Threads/Conservation.antt =====
-- The elements appended against the batches flushed and the buffer, over all interleavings
-- (internal/buffer/buffer.go).
use shorty.Base.{
  ◌≡◌, ◌≢◌, refl, ap, ◌∙◌, ◌≤◌, List, [], ◌∷◌, ◌++◌, arith, append-nil, append_assoc, concat,
  concat-append, All, All-append,
}
use shorty.Buffer.{Flusher, FlusherConfig, new_flusher, request_flush, flush_list}
use shorty.Buffer.Threads.{
  System, init, Step, enter, lock, send, receive, flush, Reach, here, next, lock_push, loop_flush,
  log_batch,
}

module _ {T : Type 0} where
  -- What was appended is what was flushed, and after it what the buffer holds; no batch is empty.
  pub record IsConserved (s : System T) : Type 0 where
    pub kept : s.accepted ≡ concat s.flushed ++ s.flusher.buf
    filled : All (λ batch. batch ≢ []) s.flushed
    one_token : s.flusher.fill_chan ≤ 1

  kept-flush_list :
      (batches : List (List T)) (all_ b : List T) (f : Flusher T)
      → f.buf ≡ b
      → all_ ≡ concat batches ++ b
      → all_ ≡ concat (log_batch batches (flush_list b f).0) ++ (flush_list b f).1.buf
  unfolding flush_list
  kept-flush_list batches all_ [] f e k = rw e k
  kept-flush_list batches all_ (x ∷ b) f e k = simp (concat-append, append-nil) k

  filled-flush_list :
      (batches : List (List T)) (b : List T) (f : Flusher T)
      → All (λ batch. batch ≢ []) batches
      → All (λ batch. batch ≢ []) (log_batch batches (flush_list b f).0)
  unfolding flush_list
  filled-flush_list batches [] f h = h
  filled-flush_list batches (x ∷ b) f h =
      All-append (λ batch. batch ≢ []) batches ((x ∷ b) ∷ []) h ((λ e. cc), tt)

  one_token-flush_list :
      (b : List T) (f : Flusher T) → f.fill_chan ≤ 1 → (flush_list b f).1.fill_chan ≤ 1
  unfolding flush_list
  one_token-flush_list [] f h = h
  one_token-flush_list (x ∷ b) f h = h

  Step-IsConserved : {s t : System T} → Step s t → IsConserved s → IsConserved t
  unfolding lock_push request_flush loop_flush
  Step-IsConserved {s} (enter x open_) c = record {
    kept = c.kept;
    filled = c.filled;
    one_token = c.one_token;
  }
  Step-IsConserved {s} (lock before after x free_ e) c = record {
    kept = ap (λ xs. xs ++ x ∷ []) c.kept ∙ append_assoc (concat s.flushed) s.flusher.buf (x ∷ []);
    filled = c.filled;
    one_token = c.one_token;
  }
  Step-IsConserved {s} (flush last at free_) c = record {
    kept = kept-flush_list s.flushed s.accepted s.flusher.buf s.flusher refl c.kept;
    filled = filled-flush_list s.flushed s.flusher.buf s.flusher c.filled;
    one_token = one_token-flush_list s.flusher.buf s.flusher c.one_token;
  }
  Step-IsConserved {s} (send held room) c = record {
    kept = c.kept;
    filled = c.filled;
    one_token = omega arith;
  }
  Step-IsConserved {s} (receive at token) c = record {
    kept = c.kept;
    filled = c.filled;
    one_token = omega arith;
  }
  Step-IsConserved {s} _ c = record { kept = c.kept; filled = c.filled; one_token = c.one_token }

  -- In every state that the goroutines can reach, the elements appended are the batches flushed, one
  -- after the other, followed by the buffer; no batch is empty, and the channel holds one token at
  -- most.
  pub Reach-IsConserved : (cfg : FlusherConfig) {s : System T} → Reach (init cfg) s → IsConserved s
  unfolding init new_flusher
  Reach-IsConserved cfg here = record { kept = refl; filled = tt; one_token = ground arith }
  Reach-IsConserved cfg (next r st) = Step-IsConserved st (Reach-IsConserved cfg r)
