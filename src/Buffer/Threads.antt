-- ===== src/Buffer/Threads.antt =====
-- The goroutines around a Flusher (internal/buffer/buffer.go): any number of Push calls, and the
-- loop of Run. The mutex makes what it protects one step, up to the send on the channel, which waits
-- with the mutex held.
mod Tests
pub mod Conservation
pub mod Deadlock
use shorty.Base.{◌≡◌, Bool, true, false, Option, none, some, List, [], ◌∷◌, ◌++◌, if◌then◌else◌}
use shorty.Buffer.{
  Flusher, FlusherConfig, new_flusher, append_elem, wants_flush, request_flush, do_flush,
}

-- Who holds the mutex between steps: nobody, or a Push that waits to send on the channel.
pub data Holder : Type 0 where
  free sending : Holder

-- The loop of Run: at its select; before doFlush, in the last round or not; returned.
pub data Loop : Type 0 where
  selecting : Loop
  flushing : Bool → Loop
  stopped : Loop

-- `entered` are the arguments of the Push calls that have passed the shutdown test and wait for the
-- mutex. `accepted` and `flushed` are the history: the elements in the order in which they were
-- appended, and the batches that the flush function got.
pub record System (T : Type 0) : Type 0 where
  pub flusher : Flusher T
  pub cancelled : Bool
  pub holder : Holder
  pub loop : Loop
  pub entered : List T
  pub accepted : List T
  pub flushed : List (List T)

abbrev after_flush : Bool → Loop
after_flush true = stopped
after_flush false = selecting

module _ {T : Type 0} where
  pub init : FlusherConfig → System T
  init cfg = record {
    flusher = new_flusher cfg;
    cancelled = false;
    holder = free;
    loop = selecting;
    entered = [];
    accepted = [];
    flushed = [];
  }

  -- Push after the mutex is taken: the append, and the test that decides whether it goes on to send.
  pub lock_push : T → List T → System T → System T
  unfolding append_elem
  lock_push x waiting s = record s {
    flusher = append_elem x s.flusher;
    holder = if wants_flush (append_elem x s.flusher) then sending else free;
    entered = waiting;
    accepted = s.accepted ++ x ∷ [];
  }

  abbrev pub log_batch : List (List T) → Option (List T) → List (List T)
  log_batch batches none = batches
  log_batch batches (some batch) = batches ++ batch ∷ []

  -- doFlush of the loop, as the last one or not.
  pub loop_flush : Bool → System T → System T
  unfolding do_flush
  loop_flush last s = record s {
    flusher = (do_flush s.flusher).1;
    loop = after_flush last;
    flushed = log_batch s.flushed (do_flush s.flusher).0;
  }

  pub data Step (s : System T) : System T → Type 0 where
    -- a Push call passes the shutdown test
    enter :
        (x : T) → s.flusher.shutdown ≡ false → Step s (record s { entered = s.entered ++ x ∷ [] })
    -- one of the waiting Push calls gets the mutex
    lock :
        (before after : List T) (x : T)
        → s.holder ≡ free
        → s.entered ≡ before ++ x ∷ after
        → Step s (lock_push x (before ++ after) s)
    -- the send finds room in the channel, and the Push returns
    send :
        s.holder ≡ sending
        → s.flusher.fill_chan ≡ 0
        → Step s (record s { flusher = request_flush s.flusher; holder = free })
    -- the context is cancelled from outside
    cancel : Step s (record s { cancelled = true })
    -- the three cases of the select
    receive :
        s.loop ≡ selecting
        → s.flusher.fill_chan ≡ 1
        → Step s (record s { flusher = record s.flusher { fill_chan = 0 }; loop = flushing false })
    timeout : s.loop ≡ selecting → Step s (record s { loop = flushing false })
    done :
        s.loop ≡ selecting
        → s.cancelled ≡ true
        → Step s (record s { flusher = record s.flusher { shutdown = true }; loop = flushing true })
    -- doFlush gets the mutex
    flush : (last : Bool) → s.loop ≡ flushing last → s.holder ≡ free → Step s (loop_flush last s)

  pub data Reach (s : System T) : System T → Type 0 where
    here : Reach s s
    next : {t u : System T} → Reach s t → Step t u → Reach s u
