-- ===== src/Grpc/Server/Answers.antt =====
-- What clients get through the interceptors (internal/grpc/server/server.go,
-- internal/grpc/interceptors).
use shorty.Base.{Str, ℕ, ◌≡◌, ◌≢◌, refl, ap, sym, ◌∙◌, inl, inr, none, some, str_eq, Bool-cases}
use shorty.Errors.{Outcome, returns, panics}
use shorty.Model.{Stats}
use shorty.Session.{Context}
use shorty.Auth.{Decision, calls, fails, auth_intercept, request_id_intercept}
use shorty.Filter.{grpc_passes}
use shorty.Filter.Senders.{IsTrustedSender, grpc_passes_sound}
use shorty.Shortener.{World}
use shorty.Grpc.{
  Reply, grpc_resolve, grpc_shorten, grpc_shorten_batch, grpc_get_all, grpc_delete_batch,
}
use shorty.Grpc.Server.{
  Method, resolve_call, shorten_call, shorten_batch_call, delete_batch_call, get_all_call,
  stats_call, Message, resolved, shortened, batch, urls, deleted, outcome_of, statistics, GrpcCall,
  GrpcParts, reply_of, Handled, call_method, after_auth, after_id, filtered_call, recovered,
  serve_call, filtered_methods, full_method, empty_context,
}

reply_of-stats :
    {A : Type 0} (s : Stats) (f : A → Message) (r : Reply A)
    → ((a : A) → f a ≢ statistics s)
    → (reply_of f r).0 ≢ some (statistics s)
reply_of-stats s f (none, c) other h = cc h
reply_of-stats s f (some a, c) other h = other a (cc h)

module _ {S : Type 0} (p : GrpcParts S) (s : Stats) where
  abbrev GivesStats : Outcome (Reply Message) → Type 0
  GivesStats panics = ⊥
  GivesStats (returns a) = a.0 ≡ some (statistics s)

  resolved-GivesStats : (o : Outcome (Reply Str)) → GivesStats (outcome_of o) → ⊥
  resolved-GivesStats panics h = h
  resolved-GivesStats (returns r) h = reply_of-stats s resolved r (λ a e. cc e) h

  -- Only Stats responds with statistics.
  call_method-stats :
      (now : ℕ) (m : Method) (ctx : Context) (w : World S)
      → GivesStats (call_method p now m ctx w).0
      → m ≡ stats_call
  call_method-stats now (resolve_call path) ctx w h =
      absurd (resolved-GivesStats (grpc_resolve p.st ctx path w).0 h)
  call_method-stats now (shorten_call url) ctx w h = absurd (
      reply_of-stats s shortened (grpc_shorten p.st p.intn p.svc p.parse ctx url w).0 (λ a e. cc e)
        h)
  call_method-stats now (shorten_batch_call b) ctx w h =
      absurd
        (reply_of-stats s batch (grpc_shorten_batch p.st p.intn p.svc ctx b w).0 (λ a e. cc e) h)
  call_method-stats now (delete_batch_call shorts) ctx w h =
      absurd
        (reply_of-stats s (λ _. deleted) (grpc_delete_batch now ctx shorts w).0 (λ a e. cc e) h)
  call_method-stats now get_all_call ctx w h =
      absurd (reply_of-stats s urls (grpc_get_all p.st p.intn p.svc ctx w).0 (λ a e. cc e) h)
  call_method-stats now stats_call ctx w h = refl

  after_auth-stats :
      (c : GrpcCall) (d : Decision × ℕ) (w : World S)
      → GivesStats (after_auth p c d w).0
      → c.method ≡ stats_call
  after_auth-stats c (fails, n) w h = cc h
  after_auth-stats c (calls ctx token, n) w h = call_method-stats c.now c.method ctx w h

  filtered_call-stats :
      (c : GrpcCall) (ctx : Context) (w : World S) (n : ℕ)
      → GivesStats (filtered_call p c ctx w n).0
      → (c.method ≡ stats_call)
        × IsTrustedSender p.net p.filter c.remote_addr c.x_real_ip c.x_forwarded_for
  unfolding filtered_call str_eq
  filtered_call-stats c ctx w n h =
      elim (Bool-cases (
        grpc_passes p.net p.filter filtered_methods (full_method c.method) c.remote_addr c.x_real_ip
          c.x_forwarded_for)) [
            | inl passed ↦
                let is_stats =
                  after_auth-stats c (auth_intercept p.auth p.secret c.now ctx c.session n) w
                    (rw passed at h) in
                (
                  is_stats,
                  grpc_passes_sound p.net p.filter c.remote_addr c.x_real_ip c.x_forwarded_for
                      filtered_methods (full_method stats_call) refl
                      (ap
                          (λ m.
                            grpc_passes p.net p.filter filtered_methods (full_method m)
                              c.remote_addr c.x_real_ip c.x_forwarded_for)
                          (sym is_stats)
                        ∙ passed),
                )
            | inr denied ↦ cc (rw denied at h)
          ]

  recovered-GivesStats :
      (o : Handled S) → (recovered p o).0.0 ≡ some (statistics s) → GivesStats o.0
  unfolding recovered
  recovered-GivesStats (panics, w, n) h = cc h
  recovered-GivesStats (returns a, w, n) h = h

  after_id-stats :
      (c : GrpcCall) (d : Decision × ℕ) (w : World S)
      → (after_id p c d w).0.0 ≡ some (statistics s)
      → (c.method ≡ stats_call)
        × IsTrustedSender p.net p.filter c.remote_addr c.x_real_ip c.x_forwarded_for
  after_id-stats c (fails, n) w h = cc h
  after_id-stats c (calls ctx token, n) w h =
      filtered_call-stats c ctx w n (recovered-GivesStats (filtered_call p c ctx w n) h)

  -- A call whose response has statistics, through all interceptors, is a call of Stats by a trusted
  -- sender, whatever the libraries do.
  pub stats_trusted :
      (c : GrpcCall) (w : World S) (n : ℕ)
      → (serve_call p c w n).0.0 ≡ some (statistics s)
      → (c.method ≡ stats_call)
        × IsTrustedSender p.net p.filter c.remote_addr c.x_real_ip c.x_forwarded_for
  unfolding serve_call
  stats_trusted c w n h =
      after_id-stats c (request_id_intercept p.auth p.trust empty_context c.req_id n) w h
