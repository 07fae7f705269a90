-- ===== src/EndToEnd/Transports.antt =====
-- A link that was made over gRPC, and followed over HTTP: both servers have the same services
-- (NewShorty of internal/app/app.go).
mod Tests
use shorty.Base.{Str, str, ℕ, ◌≡◌, refl, sym, ap, ◌∙◌, none, some, [], ◌∷◌, length}
use shorty.Errors.{ok}
use shorty.Auth.Issuing.{Generates}
use shorty.Generators.Alphabet.{IsIntn}
use shorty.Shortener.{ParsedUrl, World, get_served_url}
use shorty.Http.Writer.{set_header, write_header}
use shorty.Http.Replies.{run, answer_resolve}
use shorty.Http.Server.{Parts, HttpRequest, wrapped, serve_http}
use shorty.Http.Server.Following.{serve_get}
use shorty.Grpc.Server.{GrpcCall, GrpcParts, shortened, serve_call}
use shorty.Grpc.Server.Shortening.{shortening, serve_call-IsMade}
use shorty.Links.{View, LinkStore}
use shorty.Links.Clients.{shorten_link}
use shorty.EndToEnd.Requests.{IsGet, same_path}

-- The HTTP server over the services of the gRPC server.
abbrev pub over_services : {S : Type 0} → GrpcParts S → Parts S → Parts S
over_services g q = record q { st = g.st; intn = g.intn; svc = g.svc; parse = g.parse }

module _ {S : Type 0} (g : GrpcParts S) (q : Parts S) (view : View S)
    (links : LinkStore g.st view) where
  -- Let both servers share their services over any storage of links, let Intn keep its bound, and
  -- let the UUID generator work. If a call of Shorten, through all interceptors, is answered by a
  -- short URL without an error, then the URL parses, the path of the short URL has the configured
  -- length, and a GET of it that chi leads to Resolve is redirected to the text of the parsed URL.
  pub grpc_link_followed :
      (c : GrpcCall) (url path : Str) (w : World S) (n m : ℕ) (r : HttpRequest)
      → IsIntn g.intn
      → Generates q.auth
      → (serve_call g (shortening c url) w n).0
        ≡ (some (shortened (get_served_url g.svc path)), none)
      → IsGet (over_services g q) r path
      → (u : ParsedUrl) × (g.parse url ≡ ok u)
        × (length path ≡ g.svc.path_length)
        × ((serve_http (over_services g q) r (serve_call g (shortening c url) w n).1 m).0
            ≡ wrapped (run (set_header (str "Location") u.text ∷ write_header 307 ∷ [])))
  unfolding answer_resolve
  grpc_link_followed c url path w n m r range generates answered is_get =
      let link = serve_call-IsMade g url (get_served_url g.svc path) w c n answered in
      let (u, at, parses, served, long, resolves) =
        shorten_link (λ url. Unit) g.st view links g.intn g.svc g.parse link.user url
          (get_served_url g.svc path) w range (λ u at parses long letters. tt) link.made in
      let same : at ≡ path = same_path g.svc (λ t. t) at path (sym served) in
      (
        u,
        parses,
        ap length (sym same) ∙ long,
        serve_get (over_services g q) r (serve_call g (shortening c url) w n).1 m generates
              (b'/' ∷ at) is_get.found (is_get.at ∙ ap (λ k. b'/' ∷ k) (sym same))
            ∙ rw (link.state, resolves) refl,
      )
