-- ===== src/App.antt =====
-- internal/app/app.go: createStorage, NewShorty and Run, with the goroutines that Run starts and
-- waits for: Run of internal/http/server/server.go, internal/grpc/server/server.go and
-- internal/profiler/profiler.go, and the loop of the deletion queue (internal/buffer/buffer.go).
pub mod Order
pub mod Shutdown
pub mod Hang
mod Tests
use shorty.Base.{
  Str, str, ℕ, ◌+◌, ◌≡◌, Bool, true, false, not, List, [], ◌∷◌, ◌++◌, all, str_eq, if◌then◌else◌,
}
use shorty.Errors.{Result, ok, err, wrap}
use shorty.Config.{Config, StorageConfig}

-- What the interface value `store` holds.
pub data Backend (D F M : Type 0) : Type 0 where
  on_database : D → Backend D F M
  on_file : F → Backend D F M
  in_memory : M → Backend D F M

module _ {D F M : Type 0} where
  pub opened : {A : Type 0} → Str → (A → Backend D F M) → Result A → Result (Backend D F M)
  opened text f (err e) = err (wrap text e)
  opened text f (ok a) = ok (f a)

  -- createStorage, from the results of database.New, file.New and memory.New.
  pub create_storage : StorageConfig → Result D → Result F → M → Result (Backend D F M)
  create_storage cfg database file memory =
      if not (str_eq cfg.database_dsn (str ""))
      then opened (str "cannot initialize database storage") on_database database
      else if not (str_eq cfg.file_storage_path (str ""))
      then opened (str "cannot initialize file storage") on_file file
      else ok (in_memory memory)

pub data Kind : Type 0 where
  profiler http grpc : Kind

-- Where a server's Run stands: before net.Listen; at its select; with an error of net.Listen, or
-- one of its serving, that it is to send on `errc`; in Shutdown or GracefulStop, which wait for its
-- requests; there, and one of the requests waits for ever, as a Push can that holds the mutex of
-- the queue or waits for it; past that, and before wg.Done; after it.
pub data Phase : Type 0 where
  listening serving refused failing draining stalled finishing gone : Phase

pub record Server : Type 0 where
  pub kind : Kind
  pub phase : Phase

-- Where app.Run stands: at its select; at wg.Wait, with its code; returned.
pub data Main : Type 0 where
  selecting : Main
  waiting : ℕ → Main
  returned : ℕ → Main

-- The loop of the queue: it goes on; it waits for ever for the mutex, which a Push holds that waits
-- for the loop (a stuck state of Buffer/Threads); it has returned.
pub data Queue : Type 0 where
  running blocked quit : Queue

-- `received` is the history: how many errors came through `errc`.
pub record App : Type 0 where
  pub cancelled : Bool
  pub main : Main
  pub servers : List Server
  pub queue : Queue
  pub closed : Bool
  pub received : ℕ

abbrev first_phase : Kind → Phase
first_phase grpc = listening
first_phase http = serving
first_phase profiler = serving

abbrev pub configured : Str → Kind → List Server → List Server
configured addr k rest =
    if str_eq addr (str "") then rest else record { kind = k; phase = first_phase k } ∷ rest

-- Run from the creation of the app to the select: the servers whose address is configured.
pub launch : Config → App
launch cfg = record {
  cancelled = false;
  main = selecting;
  servers =
      configured cfg.pprof_server_addr profiler
        (configured cfg.listen_addr http (configured cfg.grpc_listen_addr grpc []));
  queue = running;
  closed = false;
  received = 0;
}

-- What Run does once the storage is created, or not: it goes on, or returns this code.
pub data Start : Type 0 where
  exits : ℕ → Start
  runs : App → Start

pub start_app : {B : Type 0} → Config → Result B → Start
start_app cfg (err e) = exits 1
start_app cfg (ok store) = runs (launch cfg)

-- After `err := <-errSrv`; the test is errors.Is(err, http.ErrServerClosed).
abbrev after_error : Kind → Bool → Phase
after_error grpc closed = failing
after_error http true = finishing
after_error http false = failing
after_error profiler true = finishing
after_error profiler false = failing

abbrev pub is_gone : Server → Bool
is_gone p = elim p.phase [ gone ↦ true | _ ↦ false ]

-- It waits to send its error.
abbrev is_failing : Server → Bool
is_failing p = elim p.phase [ failing ↦ true | refused ↦ true | _ ↦ false ]

-- After the send: GracefulStop of the gRPC server if it has served.
abbrev after_send : Kind → Phase → Phase
after_send grpc failing = draining
after_send _ _ = finishing

-- The requests of the profiler do not use the queue.
abbrev can_stall : Kind → Bool
can_stall profiler = false
can_stall http = true
can_stall grpc = true

-- One of the servers, of this kind, goes from this phase to that one.
pub record Moves (k : Kind) (from to : Phase) (ps qs : List Server) : Type 0 where
  pub before : List Server
  pub after : List Server
  pub was : ps ≡ before ++ record { kind = k; phase = from } ∷ after
  pub now_is : qs ≡ before ++ record { kind = k; phase = to } ∷ after

pub data Step (s : App) : App → Type 0 where
  -- a signal ends the context
  signal : Step s (record s { cancelled = true })
  -- net.Listen, with an error or without; it is the gRPC server's, since no other starts before it
  listen_fails :
      (k : Kind) (ps : List Server)
      → Moves k listening refused s.servers ps
      → Step s (record s { servers = ps })
  listens :
      (k : Kind) (ps : List Server)
      → Moves k listening serving s.servers ps
      → Step s (record s { servers = ps })
  -- the two cases of the select of a server: the end of the context, with the start of the shutdown,
  -- and an error of the server
  shut_down :
      (k : Kind) (ps : List Server)
      → s.cancelled ≡ true
      → Moves k serving draining s.servers ps
      → Step s (record s { servers = ps })
  serve_fails :
      (k : Kind) (server_closed : Bool) (ps : List Server)
      → Moves k serving (after_error k server_closed) s.servers ps
      → Step s (record s { servers = ps })
  -- the requests of a server that shuts down have ended, or one of them waits for ever
  drained :
      (k : Kind) (ps : List Server)
      → Moves k draining finishing s.servers ps
      → Step s (record s { servers = ps })
  stalls :
      (k : Kind) (ps : List Server)
      → can_stall k ≡ true
      → Moves k draining stalled s.servers ps
      → Step s (record s { servers = ps })
  -- wg.Done of a server
  finish_server :
      (k : Kind) (ps : List Server)
      → Moves k finishing gone s.servers ps
      → Step s (record s { servers = ps })
  -- the loop of the queue ends with the context, or gets stuck
  stop_flushing : s.queue ≡ running → s.cancelled ≡ true → Step s (record s { queue = quit })
  block_flushing : s.queue ≡ running → Step s (record s { queue = blocked })
  -- the two cases of the select of Run; `errc` has no buffer, so that the receive is also the send
  receive :
      (k : Kind) (from : Phase) (ps : List Server)
      → s.main ≡ selecting
      → is_failing (record { kind = k; phase = from }) ≡ true
      → Moves k from (after_send k from) s.servers ps
      → Step s
          (record s { servers = ps; main = waiting 1; cancelled = true; received = s.received + 1 })
  context_done : s.main ≡ selecting → s.cancelled ≡ true → Step s (record s { main = waiting 0 })
  -- wg.Wait and store.Close()
  close :
      (code : ℕ)
      → s.main ≡ waiting code
      → s.queue ≡ quit
      → all is_gone s.servers ≡ true
      → Step s (record s { main = returned code; closed = true })

pub data Reach (s : App) : App → Type 0 where
  here : Reach s s
  next : {t u : App} → Reach s t → Step t u → Reach s u
