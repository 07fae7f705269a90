-- ===== src/Http/Server/Guards.antt =====
-- Who gets the statistics over HTTP (internal/http/server/server.go,
-- internal/http/middleware/filter/filter.go).
use shorty.Base.{ℕ, ◌≡◌, refl, ◌⊎◌, inl, inr, some, [], ◌∷◌, Bool-cases}
use shorty.Filter.{http_passes}
use shorty.Filter.Senders.{IsTrustedSender, http_passes_sound}
use shorty.Shortener.{World}
use shorty.Http.Replies.{run}
use shorty.Http.Writer.{write_header}
use shorty.Http.Server.{
  Parts, HttpRequest, wrapped, serve_http, routes, stats_route, guarded, route_request,
}
use shorty.Auth.Issuing.{Generates}
use shorty.Http.Server.Steps.{identified}

module _ {S : Type 0} (p : Parts S) (r : HttpRequest) (w : World S) (n : ℕ) where
  -- Let the UUID generator work. A request that chi leads to Stats comes from a trusted sender, or it
  -- is answered by 403 and changes nothing.
  pub stats_guarded :
      Generates p.auth
      → p.chi.find routes r.method r.request.path ≡ some stats_route
      → IsTrustedSender p.net p.filter r.remote_addr r.x_real_ip r.x_forwarded_for
        ⊎ ((serve_http p r w n).0 ≡ wrapped (run (write_header 403 ∷ [])))
          × ((serve_http p r w n).1 ≡ w)
  unfolding serve_http route_request guarded
  stats_guarded works found =
      let (id, m, called) = identified p r w n works in
      elim (Bool-cases (http_passes p.net p.filter r.remote_addr r.x_real_ip r.x_forwarded_for)) [
        | inl passed ↦
            inl
              (http_passes_sound p.net p.filter r.remote_addr r.x_real_ip r.x_forwarded_for passed)
        | inr denied ↦ inr (rw (called, found, denied) (refl, refl))
      ]
