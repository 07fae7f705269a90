-- ===== src/Buffer.antt =====
-- internal/buffer/buffer.go: the flushing queue. The state is that of the struct `Flusher`; the
-- channel `fillChan`, of capacity 1, is the number of its tokens. Buffer/Threads.antt has the steps
-- of the goroutines that share it.
pub mod Threads
mod Tests
use shorty.Base.{
  str, ℕ, ◌+◌, Bool, true, false, not, ◌&&◌, Option, none, some, List, [], ◌∷◌, ◌++◌, length, leb,
  if◌then◌else◌,
}
use shorty.Errors.{Err, message}
use shorty.Model.{wrap64}

pub record FlusherConfig : Type 0 where
  pub flush_size : ℕ
  pub alloc_size : ℕ

pub record Flusher (T : Type 0) : Type 0 where
  pub shutdown : Bool
  pub flush_need : Bool
  pub fill_chan : ℕ
  pub buf : List T
  pub size : ℕ
  pub alloc_size : ℕ
  pub flush_size : ℕ

module _ {T : Type 0} where
  unfoldable pub new_flusher : FlusherConfig → Flusher T
  new_flusher cfg = record {
    shutdown = false;
    flush_need = false;
    fill_chan = 0;
    buf = [];
    size = 0;
    alloc_size = cfg.alloc_size;
    flush_size = cfg.flush_size;
  }

  -- `s.size++; s.buf = append(s.buf, elem)`
  pub append_elem : T → Flusher T → Flusher T
  append_elem x f = record f { size = wrap64 (f.size + 1); buf = f.buf ++ x ∷ [] }

  -- `len(s.buf) >= s.flushSize && !s.flushNeed.Load()`
  abbrev pub wants_flush : Flusher T → Bool
  wants_flush f = leb f.flush_size (length f.buf) && not f.flush_need

  -- `s.fillChan <- struct{}{}; s.flushNeed.Store(true)`, once the channel has room.
  pub request_flush : Flusher T → Flusher T
  request_flush f = record f { fill_chan = 1; flush_need = true }

  push_locked : Flusher T → Flusher T
  unfolding request_flush
  push_locked f = if wants_flush f then request_flush f else f

  -- The effects of a Push that returns. Where the channel is full, the send waits for the flush loop
  -- to take the old token, and the channel is full again.
  unfoldable pub push : T → Flusher T → Option Err × Flusher T
  unfolding push_locked append_elem
  push x f =
      if f.shutdown
      then (some (message (str "flusher is shutting down")), f)
      else (none, push_locked (append_elem x f))

  flush_list : List T → Flusher T → Option (List T) × Flusher T
  flush_list [] f = (none, record f { flush_need = false })
  flush_list (x ∷ xs) f = (some (x ∷ xs), record f { buf = []; flush_need = false })

  -- doFlush: the batch that is handed to the flush function, if the buffer is not empty.
  unfoldable pub do_flush : Flusher T → Option (List T) × Flusher T
  unfolding flush_list
  do_flush f = flush_list f.buf f
