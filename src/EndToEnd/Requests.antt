-- ===== src/EndToEnd/Requests.antt =====
-- The requests of a link's life (internal/http/server), and what is read off their answers.
use shorty.Base.{Str, str, ◌≡◌, none, some, [], ◌∷◌, ◌++◌}
use shorty.Errors.{ok}
use shorty.Memory.{Memory}
use shorty.Generators.Alphabet.{IsIntn}
use shorty.Auth.{Claims}
use shorty.Auth.Sessions.{IsLibrary}
use shorty.Auth.Issuing.{Generates}
use shorty.Shortener.{Service, get_served_url}
use shorty.Http.Replies.{content_type_json}
use shorty.Http.Handlers.{read_body}
use shorty.Http.Server.{
  Parts, HttpRequest, routes, mounted_routes, mount_route, plain_route, delete_route, resolve_route,
}
use shorty.Http.Server.Posting.{Signs, created_response}

-- A request without a cookie that chi leads to ShortenPlain, with this URL as its body.
pub record IsPost (p : Parts Memory) (r : HttpRequest) (url : Str) : Type 0 where
  pub found : p.chi.find routes r.method r.request.path ≡ some mount_route
  pub found_below : p.chi.find mounted_routes r.method r.request.path ≡ some plain_route
  pub no_cookie : r.cookie ≡ none
  pub read : read_body p.lib r.request ≡ ok url

-- A request for this short path that chi leads to Resolve.
pub record IsGet {S : Type 0} (p : Parts S) (r : HttpRequest) (path : Str) : Type 0 where
  pub found : p.chi.find routes r.method r.request.path ≡ some resolve_route
  pub at : r.request.path ≡ b'/' ∷ path

-- A request with this token that chi leads to DeleteBatch, whose JSON body is a list of this path.
pub record IsDelete (p : Parts Memory) (r : HttpRequest) (tok path : Str) : Type 0 where
  pub found : p.chi.find routes r.method r.request.path ≡ some mount_route
  pub found_below : p.chi.find mounted_routes r.method r.request.path ≡ some delete_route
  pub cookie : r.cookie ≡ some tok
  pub json : r.request.content_type ≡ content_type_json
  pub body : Str
  pub read : read_body p.lib r.request ≡ ok body
  pub decoded : p.lib.unmarshal_shorts body ≡ ok (path ∷ [])

-- What the parts promise: Intn keeps its bound, UUIDs are generated, and tokens are made, are parsed
-- until they expire, and can be told from one another by their cookies.
pub record Works (p : Parts Memory) : Type 0 where
  pub range : IsIntn p.intn
  pub generates : Generates p.auth
  pub is_library : IsLibrary p.auth
  pub signs : Signs p.auth
  pub cookies :
      (a b : Str) (c d : Claims)
      → p.auth.signed_string p.secret c ≡ ok a
      → p.auth.signed_string p.secret d ≡ ok b
      → p.cookie_text a ≡ p.cookie_text b
      → a ≡ b

append_cancel : (a x y : Str) → a ++ x ≡ a ++ y → x ≡ y
append_cancel [] x y h = h
append_cancel (c ∷ a) x y h = append_cancel a x y (cc h)

module _ (svc : Service) (cookie_text : Str → Str) where
  -- The response that a link was made, seen from both sides.
  pub same_link :
      (tok path tok' short : Str)
      → (cookie_text tok' ≡ cookie_text tok → tok' ≡ tok)
      → created_response cookie_text tok (get_served_url svc path)
        ≡ created_response cookie_text tok' short
      → (tok' ≡ tok) × (short ≡ get_served_url svc path)
  same_link tok path tok' short cookies h = (cookies (cc h), cc h)

  pub same_path : (a b : Str) → get_served_url svc a ≡ get_served_url svc b → a ≡ b
  unfolding get_served_url
  same_path a b h =
      let rest = append_cancel svc.served_scheme _ _ h in
      append_cancel (str "/") a b (append_cancel svc.host _ _ (append_cancel (str "://") _ _ rest))
