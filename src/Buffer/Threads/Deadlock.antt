-- ===== src/Buffer/Threads/Deadlock.antt =====
-- Shutdown of the queue (internal/buffer/buffer.go): a Push that waits with the mutex held, and a
-- Push after the last flush.
use shorty.Base.{
  ℕ, ◌≡◌, refl, ◌<◌, ◌+◌, Bool, true, false, some, List, [], ◌∷◌, ◌++◌, arith, append-nil,
  append_assoc, length, length-append, leb, not, ◌&&◌, if◌then◌else◌,
}
use shorty.Model.{wrap64}
use shorty.Buffer.{Flusher, FlusherConfig, new_flusher, request_flush, flush_list}
use shorty.Buffer.Threads.{
  System, Holder, free, sending, Loop, selecting, flushing, stopped, init, Step, enter, lock, send,
  cancel, receive, timeout, done, flush, Reach, here, next, lock_push, loop_flush,
}

module _ {T : Type 0} where
  -- A Push waits with the mutex held for room in the channel, and the loop, which alone empties the
  -- channel, waits for the mutex.
  pub record IsStuck (s : System T) : Type 0 where
    pub held : s.holder ≡ sending
    pub full : s.flusher.fill_chan ≡ 1
    pub waiting : (last : Bool) × (s.loop ≡ flushing last)

  pub record SameQueue (s t : System T) : Type 0 where
    pub stuck : IsStuck t
    same_buf : t.flusher.buf ≡ s.flusher.buf
    same_flushed : t.flushed ≡ s.flushed
    same_accepted : t.accepted ≡ s.accepted

  Step-SameQueue : {s t u : System T} → Step t u → SameQueue s t → SameQueue s u
  unfolding lock_push request_flush loop_flush
  Step-SameQueue (lock before after x free_ e) q = cc (free_, q.stuck.held)
  Step-SameQueue (flush last at free_) q = cc (free_, q.stuck.held)
  Step-SameQueue (send held room) q = absurd (omega (arith, q.stuck.full))
  Step-SameQueue (receive at token) q = cc (at, q.stuck.waiting.1)
  Step-SameQueue (timeout at) q = cc (at, q.stuck.waiting.1)
  Step-SameQueue (done at c) q = cc (at, q.stuck.waiting.1)
  Step-SameQueue (enter x open_) q = record {
    stuck = record { held = q.stuck.held; full = q.stuck.full; waiting = q.stuck.waiting };
    same_buf = q.same_buf;
    same_flushed = q.same_flushed;
    same_accepted = q.same_accepted;
  }
  Step-SameQueue cancel q = record {
    stuck = record { held = q.stuck.held; full = q.stuck.full; waiting = q.stuck.waiting };
    same_buf = q.same_buf;
    same_flushed = q.same_flushed;
    same_accepted = q.same_accepted;
  }

  -- A stuck queue stays so: whatever happens afterwards, nothing more is appended or flushed.
  stuck_forever : {s t : System T} → IsStuck s → Reach s t → SameQueue s t
  stuck_forever k here = record {
    stuck = k;
    same_buf = refl;
    same_flushed = refl;
    same_accepted = refl;
  }
  stuck_forever k (next r st) = Step-SameQueue st (stuck_forever k r)

-- The loop has returned, and these batches were flushed.
record IsOver {T : Type 0} (batches : List (List T)) (s : System T) : Type 0 where
  over : s.loop ≡ stopped
  same_flushed : s.flushed ≡ batches

module _ {T : Type 0} where
  Step-IsOver :
      {batches : List (List T)} {s t : System T} → Step s t → IsOver batches s → IsOver batches t
  unfolding lock_push
  Step-IsOver (receive at token) q = cc (at, q.over)
  Step-IsOver (timeout at) q = cc (at, q.over)
  Step-IsOver (done at c) q = cc (at, q.over)
  Step-IsOver (flush last at free_) q = cc (at, q.over)
  Step-IsOver _ q = record { over = q.over; same_flushed = q.same_flushed }

  Reach-IsOver :
      {batches : List (List T)} {s t : System T}
      → s.loop ≡ stopped
      → s.flushed ≡ batches
      → Reach s t
      → IsOver batches t
  Reach-IsOver e f here = record { over = e; same_flushed = f }
  Reach-IsOver e f (next r st) = Step-IsOver st (Reach-IsOver e f r)

module _ {T : Type 0} (cfg : FlusherConfig) where
  -- The states of a run in which one Push follows the other.
  abbrev at : Bool → ℕ → List T → ℕ → List T → List (List T) → Holder → Loop → System T
  at need chan buf size accepted flushed holder loop = record {
    flusher = record {
      shutdown = false;
      flush_need = need;
      fill_chan = chan;
      buf = buf;
      size = size;
      alloc_size = cfg.alloc_size;
      flush_size = cfg.flush_size;
    };
    cancelled = false;
    holder = holder;
    loop = loop;
    entered = [];
    accepted = accepted;
    flushed = flushed;
  }

  module _ {s : System T} (need : Bool) (chan : ℕ) (batches : List (List T)) where
    push_one :
        (x : T) (buf : List T) (size : ℕ) (acc : List T)
        → Reach s (at need chan buf size acc batches free selecting)
        → Reach s (
            at need chan
              (buf ++ x ∷ [])
              (wrap64 (size + 1))
              (acc ++ x ∷ [])
              batches
              (if leb cfg.flush_size (length (buf ++ x ∷ [])) && not need then sending else free)
              selecting)
    unfolding lock_push
    push_one x buf size acc r = next (next r (enter x refl)) (lock [] [] x refl refl)

    push_below :
        (x : T) (buf : List T) (size : ℕ) (acc : List T)
        → length buf + 1 < cfg.flush_size
        → Reach s (at need chan buf size acc batches free selecting)
        → Reach s (
            at need chan (buf ++ x ∷ []) (wrap64 (size + 1)) (acc ++ x ∷ []) batches free selecting)
    push_below x buf size acc h r =
        let small : leb cfg.flush_size (length (buf ++ x ∷ [])) ≡ false =
          ground (arith, length-append buf (x ∷ [])) in
        rw small at (push_one x buf size acc r)

    push_all :
        (xs buf : List T) (size : ℕ) (acc : List T)
        → length buf + length xs < cfg.flush_size
        → Reach s (at need chan buf size acc batches free selecting)
        → (size' : ℕ) × Reach s (at need chan (buf ++ xs) size' (acc ++ xs) batches free selecting)
    push_all [] buf size acc h r = (size, rw (append-nil buf, append-nil acc) r)
    push_all (x ∷ xs) buf size acc h r =
        let r' = push_below x buf size acc (omega arith) r in
        let (size', r'') =
          push_all xs (buf ++ x ∷ []) (wrap64 (size + 1)) (acc ++ x ∷ [])
            (omega (arith, length-append buf (x ∷ []))) r' in
        (size', rw (append_assoc buf (x ∷ []) xs, append_assoc acc (x ∷ []) xs) at r'')

  -- Pushing as many elements as fill the buffer leaves the last Push before its send.
  fill :
      {s : System T} (chan : ℕ) (batches : List (List T)) (xs : List T) (x : T) (size : ℕ)
      (acc : List T)
      → length xs + 1 ≡ cfg.flush_size
      → Reach s (at false chan [] size acc batches free selecting)
      → (size' : ℕ) × Reach s
          (at false chan (xs ++ x ∷ []) size' ((acc ++ xs) ++ x ∷ []) batches sending selecting)
  fill chan batches xs x size acc h r =
      let (n, r') = push_all false chan batches xs [] size acc (omega arith) r in
      let large : leb cfg.flush_size (length (xs ++ x ∷ [])) ≡ true =
        ground (arith, length-append xs (x ∷ [])) in
      (wrap64 (n + 1), rw large at (push_one false chan batches x xs n (acc ++ xs) r'))

  flush_list-snoc :
      (xs : List T) (x : T) (f : Flusher T)
      → flush_list (xs ++ x ∷ []) f
        ≡ (some (xs ++ x ∷ []), record f { buf = []; flush_need = false })
  unfolding flush_list
  flush_list-snoc [] x f = refl
  flush_list-snoc (y ∷ xs) x f = refl

  -- The interval passes just before the send: the loop flushes, and the token stays.
  flush_early :
      {s : System T} (xs : List T) (x : T) (size : ℕ) (acc : List T)
      → Reach s (at false 0 (xs ++ x ∷ []) size acc [] sending selecting)
      → Reach s (at false 1 [] size acc ((xs ++ x ∷ []) ∷ []) free selecting)
  unfolding request_flush loop_flush
  flush_early {s} xs x size acc r =
      let r' = next (next r (timeout refl)) (send refl refl) in
      rw (flush_list-snoc xs x) at (next r' (flush false refl refl))

  -- Whatever elements fill the queue to its flush size twice, it can get stuck at shutdown: there
  -- is a run to a state in which the context is cancelled and the loop has taken this case of its
  -- select, a Push holds the mutex and waits for room in the full channel, and the loop waits for
  -- the mutex to do its last flush; the first of these batches is flushed, and the second is in the
  -- buffer. Whatever happens then, the queue stays stuck, and nothing more is appended or flushed.
  pub deadlock_reachable :
      (xs ys : List T) (x y : T)
      → length xs + 1 ≡ cfg.flush_size
      → length ys + 1 ≡ cfg.flush_size
      → (s : System T) × Reach (init cfg) s
        × IsStuck s
        × (s.cancelled ≡ true)
        × (s.flusher.shutdown ≡ true)
        × (s.loop ≡ flushing true)
        × (s.flushed ≡ (xs ++ x ∷ []) ∷ [])
        × (s.flusher.buf ≡ ys ++ y ∷ [])
        × ((t : System T) → Reach s t → SameQueue s t)
  unfolding init new_flusher
  deadlock_reachable xs ys x y hx hy =
      let (n, r) = fill 0 [] xs x 0 [] hx here in
      let r' = flush_early xs x n ((xs) ++ x ∷ []) r in
      let (m, r'') = fill 1 ((xs ++ x ∷ []) ∷ []) ys y n (xs ++ x ∷ []) hy r' in
      (
        _,
        next (next r'' cancel) (done refl refl),
        record { held = refl; full = refl; waiting = (true, refl) },
        refl,
        refl,
        refl,
        refl,
        refl,
        λ t after.
            stuck_forever (record { held = refl; full = refl; waiting = (true, refl) }) after,
      )

  -- For every element there is a run in which its Push passes the shutdown test and gets the mutex
  -- after the last flush: it is the only element accepted, and whatever happens then, nothing is
  -- flushed any more.
  pub late_push_lost :
      (x : T)
      → (s : System T) × Reach (init cfg) s
        × (s.accepted ≡ x ∷ [])
        × ((t : System T) → Reach s t → t.flushed ≡ [])
  unfolding init new_flusher lock_push loop_flush flush_list
  late_push_lost x =
      let entered : Reach (init cfg) (record (init cfg) { entered = x ∷ [] }) =
        next here (enter x refl) in
      let last = next (next (next entered cancel) (done refl refl)) (flush true refl refl) in
      (_, next last (lock [] [] x refl refl), refl, λ t r. (Reach-IsOver refl refl r).same_flushed)
