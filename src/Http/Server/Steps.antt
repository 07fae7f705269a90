-- ===== src/Http/Server/Steps.antt =====
-- How a request passes the middleware of internal/http/server/server.go.
use shorty.Base.{Str, ℕ, ◌≡◌, refl, none, some}
use shorty.Session.{Context}
use shorty.Auth.{calls, auth_serve_http, request_id_serve_http, create_or_parse_user, decided}
use shorty.Auth.Issuing.{Generates, request_id_serve_http_calls}
use shorty.Shortener.{World}
use shorty.Http.Server.{
  Endpoint, Route, Parts, HttpRequest, wrapped, handle, auth_then, guarded, route_mounted,
  route_target, route_request, serve_http, routes, mounted_routes, mount_route, endpoint, unguarded,
  empty_context, wrapped_run,
}

abbrev pub identified_as : Str → Context
identified_as id = record { user = none; req_id = some id }

module _ {S : Type 0} (p : Parts S) (r : HttpRequest) (w : World S) (n : ℕ) where
  pub identified :
      Generates p.auth
      → (id : Str) × (m : ℕ) × (request_id_serve_http p.auth p.trust empty_context r.req_id n
          ≡ (calls (identified_as id) none, m))
  identified works = request_id_serve_http_calls p.auth works p.trust empty_context r.req_id n

  -- A handler of the outer router without a middleware of its own.
  pub serve_outer :
      (e : Endpoint) (method pattern : _)
      → Generates p.auth
      → p.chi.find routes r.method r.request.path
        ≡ some
            (record { method = method; pattern = pattern; guard = unguarded; target = endpoint e })
      → (id : Str) × (m : ℕ) × (serve_http p r w n ≡ (
        wrapped (handle p r e (identified_as id) w).0,
        (handle p r e (identified_as id) w).1,
        m,
      ))
  unfolding serve_http route_request guarded route_target
  serve_outer e method pattern works found =
      let (id, m, called) = identified works in (id, m, rw (called, found) refl)

  -- A handler of the mounted router, behind the authentication.

  pub serve_mounted :
      (route : Route Endpoint)
      → Generates p.auth
      → p.chi.find routes r.method r.request.path ≡ some mount_route
      → p.chi.find mounted_routes r.method r.request.path ≡ some route
      → (id : Str) × (m : ℕ) × (serve_http p r w n
          ≡ wrapped_run p (
              auth_then p
                (decided (identified_as id) (create_or_parse_user p.auth p.secret r.now r.cookie m))
                w
                (λ ctx. handle p r route.target ctx w)))
  unfolding serve_http route_request guarded route_target route_mounted auth_serve_http
  serve_mounted route works found found_below =
      let (id, m, called) = identified works in (id, m, rw (called, found, found_below) refl)
