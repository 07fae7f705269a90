-- ===== src/App/Hang.antt =====
-- Two servers that fail at once, under app.Run (internal/app/app.go).
use shorty.Base.{
  str, ◌≡◌, ◌≢◌, refl, sym, ap, ◌∙◌, true, false, List, [], ◌∷◌, ◌++◌, any, append_assoc, arith,
  str_eq, str_eq-ne, Bool-cases, inl, inr,
}
use shorty.Config.{Config}
use shorty.App.{
  App, selecting, waiting, Server, profiler, http, grpc, Phase, listening, serving, failing,
  finishing, refused, running, listen_fails, serve_fails, receive, Reach, here, next, launch,
  configured,
}
use shorty.App.Order.{Reach-IsOrderly, is_returned}
use shorty.App.Shutdown.{append_Reach, is_stuck, IsHung, Reach-IsHung}

-- The HTTP and the gRPC server follow these servers, each in this phase.
abbrev pub pair_after : List Server → Phase → Phase → List Server
pair_after before p q =
    before ++ record { kind = http; phase = p } ∷ record { kind = grpc; phase = q } ∷ []

abbrev both_failed : List Server → App
both_failed before = record {
  cancelled = true;
  main = waiting 1;
  servers = pair_after before finishing refused;
  queue = running;
  closed = false;
  received = 1;
}

abbrev both_started : List Server → App
both_started before = record {
  cancelled = false;
  main = selecting;
  servers = pair_after before serving listening;
  queue = running;
  closed = false;
  received = 0;
}

-- Both servers fail, and Run receives the error of the HTTP server only.
fails_twice : (before : List Server) → Reach (both_started before) (both_failed before)
fails_twice before =
    let assoc : (p q : Phase)
        → pair_after before p q
          ≡ (before ++ record { kind = http; phase = p } ∷ [])
            ++ record { kind = grpc; phase = q } ∷ [] =
      λ p q. sym (
        append_assoc before (record { kind = http; phase = p } ∷ [])
          (record { kind = grpc; phase = q } ∷ [])) in
    let http_fails = next here (
      serve_fails http false (pair_after before failing listening)
        (record { before = before; after = _; was = refl; now_is = refl })) in
    let grpc_fails = next http_fails (
      listen_fails grpc (pair_after before failing refused) (record {
        before = _;
        after = [];
        was = assoc failing listening;
        now_is = assoc failing refused;
      })) in
    next grpc_fails (
      receive http failing (pair_after before finishing refused) refl refl
        (record { before = before; after = _; was = refl; now_is = refl }))

any-last : (before : List Server) → any is_stuck (pair_after before finishing refused) ≡ true
any-last [] = refl
any-last (p ∷ before) = ground (arith, any-last before)

launch_both :
    (cfg : Config)
    → cfg.listen_addr ≢ str ""
    → cfg.grpc_listen_addr ≢ str ""
    → launch cfg ≡ both_started (configured cfg.pprof_server_addr profiler [])
unfolding launch
launch_both cfg hh hg = elim (Bool-cases (str_eq cfg.pprof_server_addr (str ""))) [
  | inl e ↦ rw (e, str_eq-ne _ _ hh, str_eq-ne _ _ hg)
  | inr e ↦ rw (e, str_eq-ne _ _ hh, str_eq-ne _ _ hg)
]

-- Where the HTTP and the gRPC server are both configured, with the profiler or without it, Run can
-- get to where it never returns: it waits with code 1; the HTTP server has sent its error and only
-- has to call wg.Done; the gRPC server, which could not listen, waits to send its own; and in no
-- state after that has Run returned or is the storage closed.
pub hang_reachable :
    (cfg : Config)
    → cfg.listen_addr ≢ str ""
    → cfg.grpc_listen_addr ≢ str ""
    → (s : App) × Reach (launch cfg) s
      × (s.main ≡ waiting 1)
      × (s.servers ≡ pair_after (configured cfg.pprof_server_addr profiler []) finishing refused)
      × ((t : App) → Reach s t → (t.main ≡ waiting 1) × (t.closed ≡ false))
hang_reachable cfg hh hg =
    let before = configured cfg.pprof_server_addr profiler [] in
    let r : Reach (launch cfg) (both_failed before) =
      rw (launch_both cfg hh hg) (fails_twice before) in
    let hung : IsHung 1 (both_failed before) = record { at_wait = refl; stuck = any-last before } in
    (
      both_failed before,
      r,
      refl,
      refl,
      λ t q.
          let w = (Reach-IsHung q hung).at_wait in
          (w, (Reach-IsOrderly cfg (append_Reach r q)).closed_last ∙ ap is_returned w),
    )
