-- ===== src/App/Tests.antt =====
-- Test inputs for App, and the theorems at them.
use shorty.Base.{str, str_eq, ℕ, ◌≡◌, ◌↔◌, ◌≢◌, refl, Bool, true, false, none, [], ◌∷◌, any}
use shorty.Errors.{Result, ok, err, message}
use shorty.Config.{
  Config, StorageConfig, default_listen_addr, default_grpc_listen_addr, default_base_url,
  default_jwt_secret,
}
use shorty.App.{
  App, Main, selecting, waiting, returned, http, Phase, serving, gone, finishing, refused, profiler,
  configured, drained, Queue, running, blocked, quit, signal, shut_down, finish_server,
  stop_flushing, context_done, close, Reach, here, next, launch, Backend, create_storage, start_app,
  exits, opened,
}
use shorty.App.Order.{IsOrderly, Reach-IsOrderly}
use shorty.App.Shutdown.{is_stuck, can_return_iff}
use shorty.App.Hang.{pair_after, hang_reachable}

abbrev settings : Config
settings = record {
  storage = none;
  tls = none;
  filter = none;
  config_file_path = str "";
  listen_addr = default_listen_addr;
  grpc_listen_addr = default_grpc_listen_addr;
  base_url = default_base_url;
  redirect_scheme = str "";
  jwt_secret = default_jwt_secret;
  pprof_server_addr = str "";
  served_host = str "localhost:8080";
  served_scheme = str "http";
  grpc_reflection = false;
  trust_request_id = false;
}

abbrev http_only : Config
http_only = record settings { grpc_listen_addr = str "" }

abbrev one_server : Bool → Main → Phase → Queue → Bool → App
one_server cancelled main phase queue closed = record {
  cancelled = cancelled;
  main = main;
  servers = record { kind = http; phase = phase } ∷ [];
  queue = queue;
  closed = closed;
  received = 0;
}

launched : launch http_only ≡ one_server false selecting serving running false
unfolding launch str_eq
launched = refl

interrupted : Reach (launch http_only) (one_server true (waiting 0) serving running false)
unfolding launch str_eq
interrupted = next (next here signal) (context_done refl refl)

finished : Reach (launch http_only) (one_server true (returned 0) gone quit true)
finished =
    let stopping =
      next interrupted
        (shut_down http _ refl (record { before = []; after = []; was = refl; now_is = refl })) in
    let drained_ =
      next stopping
        (drained http _ (record { before = []; after = []; was = refl; now_is = refl })) in
    let stopped =
      next drained_
        (finish_server http _ (record { before = []; after = []; was = refl; now_is = refl })) in
    next (next stopped (stop_flushing refl refl)) (close 0 refl refl refl)

Reach-IsOrderly_example : IsOrderly (one_server true (returned 0) gone quit true)
Reach-IsOrderly_example = Reach-IsOrderly http_only finished

can_return_iff_example :
    ((t : App) × Reach (one_server true (waiting 0) serving running false) t
      × (t.main ≡ returned 0)
      × (t.closed ≡ true))
    ↔ ((any is_stuck (record { kind = http; phase = serving } ∷ []) ≡ false) × (running ≢ blocked))
can_return_iff_example = can_return_iff http_only interrupted refl

hang_reachable_example :
    (s : App) × Reach (launch settings) s
    × (s.main ≡ waiting 1)
    × (s.servers ≡ pair_after (configured (str "") profiler []) finishing refused)
    × ((t : App) → Reach s t → (t.main ≡ waiting 1) × (t.closed ≡ false))
hang_reachable_example = hang_reachable settings (λ e. cc) (λ e. cc)

-- A storage that cannot be opened ends Run with code 1.
abbrev on_disk : StorageConfig
on_disk = record { database_dsn = str ""; file_storage_path = str "/tmp/urls"; trace_db = false }

unopened : Result (Backend ℕ ℕ ℕ)
unfolding create_storage
unopened = create_storage on_disk (ok 1) (err (message (str "no such file"))) 2

start_app-unopened : start_app settings unopened ≡ exits 1
unfolding start_app unopened create_storage opened str_eq
start_app-unopened = refl
