-- ===== src/Http/Server.antt =====
-- internal/http/server/server.go: the chain of middleware and the routes of registerHandlers, with
-- the handlers of internal/http/server/handlers.go behind them. chi is a parameter.
pub mod Steps
pub mod Posting
pub mod Guards
pub mod Following
use shorty.Base.{Str, str, ℕ, Bool, Option, none, some, List, [], ◌∷◌, if◌then◌else◌}
use shorty.Errors.{Result}
use shorty.Model.{Storage}
use shorty.Session.{Context}
use shorty.Auth.{Decision, calls, fails, auth_serve_http, request_id_serve_http}
use shorty.Auth as A
use shorty.Filter.{Netip, Filter, http_passes}
use shorty.Shortener.{Service, ParsedUrl, World}
use shorty.Http.Writer.{
  Wire, Encoder, set_header, write_header, wire_write_header, no_response, serve_wrapped,
}
use shorty.Http.Replies.{Run, run, fail}
use shorty.Http.Handlers.{
  Request, Library, handle_ping, handle_stats, handle_resolve, handle_shorten, handle_shorten_plain,
  handle_get_all, handle_shorten_batch, handle_delete_batch,
}

-- The handlers, by what a route leads to.
pub data Endpoint : Type 0 where
  to_get_all to_delete_batch to_shorten to_shorten_batch to_shorten_plain to_resolve to_ping
        to_stats :
      Endpoint

pub data Guard : Type 0 where
  unguarded authorized filtered : Guard

-- A route for a method, or for all of them, behind a middleware or none.
pub record Route (T : Type 0) : Type 0 where
  pub method : Option Str
  pub pattern : Str
  pub guard : Guard
  pub target : T

-- A handler, or the router that is mounted behind the authentication.
pub data Target : Type 0 where
  endpoint : Endpoint → Target
  mounted : Target

abbrev get_method : Str
get_method = str "GET"

abbrev post_method : Str
post_method = str "POST"

abbrev delete_method : Str
delete_method = str "DELETE"

abbrev on : {T : Type 0} → Str → Str → Guard → T → Route T
on m p g t = record { method = some m; pattern = p; guard = g; target = t }

-- registerHandlers: the mounted router, and the outer one.
abbrev pub delete_route : Route Endpoint
delete_route = on delete_method (str "/api/user/urls") unguarded to_delete_batch

abbrev pub plain_route : Route Endpoint
plain_route = on post_method (str "/") unguarded to_shorten_plain

abbrev pub mounted_routes : List (Route Endpoint)
mounted_routes =
    on get_method (str "/api/user/urls") unguarded to_get_all
    ∷ delete_route
    ∷ on post_method (str "/api/shorten") unguarded to_shorten
    ∷ on post_method (str "/api/shorten/batch") unguarded to_shorten_batch
    ∷ plain_route
    ∷ []

abbrev pub mount_route : Route Target
mount_route = record { method = none; pattern = str "/"; guard = authorized; target = mounted }

abbrev pub resolve_route : Route Target
resolve_route = on get_method (str "/{path}") unguarded (endpoint to_resolve)

abbrev pub stats_route : Route Target
stats_route = on get_method (str "/api/internal/stats") filtered (endpoint to_stats)

abbrev pub routes : List (Route Target)
routes =
    mount_route
    ∷ resolve_route
    ∷ on get_method (str "/ping") unguarded (endpoint to_ping)
    ∷ stats_route
    ∷ []

-- chi: the route that it finds for a method and a path, and what it answers without one.
pub record Chi : Type 1 where
  pub find : {T : Type 0} → List (Route T) → Str → Str → Option (Route T)
  pub unrouted : Str → Str → Run

-- A request, with its time.
pub record HttpRequest : Type 0 where
  pub method : Str
  pub request : Request
  pub req_id : Str
  pub cookie : Option Str
  pub remote_addr : Str
  pub x_real_ip : Str
  pub x_forwarded_for : Str
  pub now : ℕ

-- What reaches net/http's ResponseWriter from outside the logging middleware, or from inside.
pub data Response : Type 0 where
  early_error : Response
  wrapped : Run → Response

-- The status that the client gets.
pub response_status :
    (Wire → Str → ℕ × Option shorty.Errors.Err) → Encoder → Str → Response → Option ℕ
response_status net_write encoder accept_encoding early_error =
    (wire_write_header 500 no_response).status
response_status net_write encoder accept_encoding (wrapped r) =
    (serve_wrapped net_write encoder accept_encoding r.actions r.panicking).wire.status

abbrev empty_context : Context
empty_context = record { user = none; req_id = none }

abbrev forbidden : Run
forbidden = run (write_header 403 ∷ [])

-- The result of a handler, the state, and how often the UUID generator was called.
abbrev Served : Type 0 → Type 0
Served S = Run × World S × ℕ

-- What the server is made of.
pub record Parts (S : Type 0) : Type 1 where
  pub st : Storage S
  pub intn : ℕ → ℕ → ℕ
  pub svc : Service
  pub parse : Str → Result ParsedUrl
  pub lib : Library
  pub auth : A.Library
  pub secret : Str
  pub trust : Bool
  pub net : Netip
  pub filter : Filter net
  pub chi : Chi
  -- (*http.Cookie).String of the session cookie
  pub cookie_text : Str → Str

module _ {S : Type 0} (p : Parts S) where
  abbrev pub handle : HttpRequest → Endpoint → Context → World S → Run × World S
  handle r to_get_all ctx w = handle_get_all p.st p.intn p.svc p.parse p.lib ctx w
  handle r to_delete_batch ctx w =
      handle_delete_batch p.st p.intn p.svc p.parse p.lib r.now ctx r.request w
  handle r to_shorten ctx w = handle_shorten p.st p.intn p.svc p.parse p.lib ctx r.request w
  handle r to_shorten_batch ctx w =
      handle_shorten_batch p.st p.intn p.svc p.parse p.lib ctx r.request w
  handle r to_shorten_plain ctx w =
      handle_shorten_plain p.st p.intn p.svc p.parse p.lib ctx r.request w
  handle r to_resolve ctx w = handle_resolve p.st p.intn p.svc p.parse p.lib ctx r.request w
  handle r to_ping ctx w = handle_ping p.st p.intn p.svc p.parse p.lib w
  handle r to_stats ctx w = handle_stats p.st p.intn p.svc p.parse p.lib ctx w

  abbrev with_cookie : Option Str → Run × World S → ℕ → Served S
  with_cookie none (a, w) n = (a, w, n)
  with_cookie (some token) (a, w) n =
      (record a { actions = set_header (str "Set-Cookie") (p.cookie_text token) ∷ a.actions }, w, n)

  -- The auth middleware, with what it decides.
  abbrev pub auth_then : Decision × ℕ → World S → (Context → Run × World S) → Served S
  auth_then (fails, n) w next = (fail, w, n)
  auth_then (calls ctx cookie, n) w next = with_cookie cookie (next ctx) n

  unfoldable pub guarded :
      HttpRequest → Guard → Context → World S → ℕ → (Context → Run × World S) → Served S
  guarded r unguarded ctx w n next = let (a, w') = next ctx in (a, w', n)
  guarded r authorized ctx w n next =
      auth_then (auth_serve_http p.auth p.secret r.now ctx r.cookie n) w next
  guarded r filtered ctx w n next =
      if http_passes p.net p.filter r.remote_addr r.x_real_ip r.x_forwarded_for
      then (let (a, w') = next ctx in (a, w', n))
      else (forbidden, w, n)

  -- The mounted router. None of its routes has a middleware of its own.
  unfoldable pub route_mounted :
      HttpRequest → Option (Route Endpoint) → Context → World S → Run × World S
  route_mounted r none ctx w = (p.chi.unrouted r.method r.request.path, w)
  route_mounted r (some route) ctx w = handle r route.target ctx w

  unfoldable pub route_target : HttpRequest → Target → Context → World S → Run × World S
  route_target r (endpoint e) ctx w = handle r e ctx w
  route_target r mounted ctx w =
      route_mounted r (p.chi.find mounted_routes r.method r.request.path) ctx w

  unfoldable pub route_request :
      HttpRequest → Option (Route Target) → Context → World S → ℕ → Served S
  route_request r none ctx w n = (p.chi.unrouted r.method r.request.path, w, n)
  route_request r (some route) ctx w n =
      guarded r route.guard ctx w n λ ctx'. route_target r route.target ctx' w

  abbrev wrapped_run : Served S → Response × World S × ℕ
  wrapped_run (a, w, n) = (wrapped a, w, n)

  -- The request id middleware, with what it decides, and the others.
  abbrev id_then : HttpRequest → Decision × ℕ → World S → Response × World S × ℕ
  id_then r (fails, n) w = (early_error, w, n)
  id_then r (calls ctx cookie, n) w =
      wrapped_run (route_request r (p.chi.find routes r.method r.request.path) ctx w n)

  -- The handler of the server.
  unfoldable pub serve_http : HttpRequest → World S → ℕ → Response × World S × ℕ
  serve_http r w n = id_then r (request_id_serve_http p.auth p.trust empty_context r.req_id n) w
