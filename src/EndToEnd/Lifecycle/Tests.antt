-- ===== src/EndToEnd/Lifecycle/Tests.antt =====
-- A link from its POST to its deletion, at concrete parts and requests.
use shorty.Base.{
  Str, str, ℕ, ◌≡◌, ◌≢◌, ◌⊎◌, refl, Bool, true, false, not, ◌&&◌, Option, none, some, List, [], ◌∷◌,
  all, str_eq, ◌==◌, if◌then◌else◌, arith,
}
use shorty.Errors.{Result, ok}
use shorty.Memory.{Memory, memory_storage}
use shorty.Buffer.{new_flusher}
use shorty.Generators.Tests.{counting, counting-IsIntn}
use shorty.Auth.{Claims, default_jwt_cookie_expiration}
use shorty.Auth.Tests as A
use shorty.Filter.Tests as F
use shorty.Shortener.{ParsedUrl, World, flusher_config, flush_round}
use shorty.Http.Replies.{run, content_type_json}
use shorty.Http.Writer.{set_header, write_header}
use shorty.Http.Tests.{library, service, new_v4}
use shorty.Http.Server.{Chi, Parts, HttpRequest, Route, wrapped, serve_http, routes, stats_route}
use shorty.Http.Server.Posting.{created_response}
use shorty.Filter.Senders.{IsTrustedSender}
use shorty.Http.Server.Guards.{stats_guarded}
use shorty.EndToEnd.Requests.{IsPost, IsGet, IsDelete, Works}
use shorty.EndToEnd.Lifecycle.{link_life}

-- A URL is its scheme and what follows.
abbrev parse : Str → Result ParsedUrl
parse s = ok (record { scheme = str "https"; text = s })

-- Two URLs of one segment are told from others; a route with a fixed path comes first, then the
-- one with a parameter, then the mounted router.
abbrev is_segment : Str → Bool
is_segment [] = false
is_segment (c ∷ s) = all (λ b. not (b == b'/')) s

abbrev same_method : Option Str → Str → Bool
same_method none m = false
same_method (some a) m = str_eq a m

abbrev is_none : Option Str → Bool
is_none none = true
is_none (some a) = false

module _ {T : Type 0} where
  abbrev first : (Route T → Bool) → List (Route T) → Option (Route T)
  first test [] = none
  first test (r ∷ rs) = let rest = first test rs in if test r then some r else rest

  abbrev or_else : Option (Route T) → Option (Route T) → Option (Route T)
  or_else none o = o
  or_else (some r) o = some r

  abbrev find_route : List (Route T) → Str → Str → Option (Route T)
  find_route rs m path = or_else (first (λ r. same_method r.method m && str_eq r.pattern path) rs) (
      or_else
        (first (λ r. same_method r.method m && str_eq r.pattern (str "/{path}") && is_segment path)
          rs)
        (first (λ r. is_none r.method) rs))

abbrev chi : Chi
chi = record { find = find_route; unrouted = λ m path. run (write_header 404 ∷ []) }

abbrev pub parts : Parts Memory
parts = record {
  st = memory_storage new_v4;
  intn = counting;
  svc = service;
  parse = parse;
  lib = library;
  auth = A.library;
  secret = str "s";
  trust = false;
  net = F.net;
  filter = F.trusting;
  chi = chi;
  cookie_text = λ t. t;
}

abbrev sent : Str → Str → Str → Str → Option Str → HttpRequest
sent method path content_type body cookie = record {
  method = method;
  request = record {
    path = path;
    content_type = content_type;
    content_encoding = str "";
    body = ok body;
  };
  req_id = str "";
  cookie = cookie;
  remote_addr = str "z";
  x_real_ip = str "";
  x_forwarded_for = str "";
  now = 0;
}

abbrev token : Str
token = default_jwt_cookie_expiration ∷ b'u' ∷ 1 ∷ []

abbrev post : HttpRequest
post = sent (str "POST") (str "/") (str "text/plain") (str "https://x") none

abbrev pub fetch : HttpRequest
fetch = sent (str "GET") (str "/01") (str "") (str "") none

abbrev delete : HttpRequest
delete = sent (str "DELETE") (str "/api/user/urls") content_type_json (str "01") (some token)

abbrev world : World Memory
world = record {
  store = record { db = []; drawn = 0 };
  flusher = new_flusher flusher_config;
  draws = 0;
}

-- The claims of the token.
abbrev token_claims : Claims
token_claims = record { expires_at = some default_jwt_cookie_expiration; user_id = b'u' ∷ 1 ∷ [] }

post-IsPost : IsPost parts post (str "https://x")
unfolding str_eq shorty.Http.Handlers.read_body
post-IsPost = record { found = refl; found_below = refl; no_cookie = refl; read = refl }

fetch-IsGet : IsGet parts fetch (str "01")
unfolding str_eq
fetch-IsGet = record { found = refl; at = refl }

delete-IsDelete : IsDelete parts delete token (str "01")
unfolding str_eq shorty.Http.Handlers.read_body
delete-IsDelete = record {
  found = refl;
  found_below = refl;
  cookie = refl;
  json = refl;
  body = str "01";
  read = refl;
  decoded = refl;
}

sign-ne : (o : Option ℕ) (id tok : Str) → A.sign o id ≡ ok tok → tok ≢ str ""
sign-ne none id tok h e = cc h
sign-ne (some at) id tok h e = cc (h, e)

parts-Works : Works parts
parts-Works = record {
  range = counting-IsIntn;
  generates = λ n. (n ∷ [], refl);
  is_library = A.library-IsLibrary;
  signs = λ secret tok c. sign-ne c.expires_at c.user_id tok;
  cookies = λ a b c d s t h. h;
}

created :
    (serve_http parts post world 0).0
    ≡ created_response (λ t. t) token (shorty.Shortener.get_served_url service (str "01"))
unfolding serve_http shorty.Http.Server.route_request shorty.Http.Server.guarded
    shorty.Http.Server.route_target shorty.Http.Server.route_mounted
    shorty.Auth.request_id_serve_http shorty.Auth.auth_serve_http shorty.Auth.with_session
    shorty.Auth.create_or_parse_user shorty.Auth.create_user_and_token shorty.Auth.new_user
    shorty.Auth.new_token shorty.Session.get_user_and_req_id
    shorty.Http.Handlers.handle_shorten_plain shorty.Http.Handlers.with_user
    shorty.Http.Handlers.with_body shorty.Http.Handlers.read_body shorty.Http.Replies.answer_shorten
    shorty.Http.Replies.shorten_code shorty.Shortener.shorten shorty.Shortener.shorten_parsed
    shorty.Shortener.shorten_stored shorty.Shortener.store_url shorty.Shortener.store_tries
    shorty.Shortener.store_drawn shorty.Shortener.store_answer shorty.Shortener.get_served_url
    shorty.Memory.store shorty.Generators.rand_string shorty.Base.lookup shorty.Base.insert str_eq
created = refl

open_queue : (world.flusher.shutdown ≡ false) × (world.flusher.buf ≡ [])
unfolding new_flusher
open_queue = (refl, refl)

link_life_example :
    (u : ParsedUrl) × (parse (str "https://x") ≡ ok u)
    × ((serve_http parts fetch (serve_http parts post world 0).1 2).0
        ≡ wrapped (run (set_header (str "Location") u.text ∷ write_header 307 ∷ [])))
    × ((serve_http parts delete (serve_http parts post world 0).1 3).0
        ≡ wrapped (run (write_header 202 ∷ [])))
    × ((serve_http parts fetch
          (flush_round parts.st (serve_http parts delete (serve_http parts post world 0).1 3).1)
          4).0
        ≡ wrapped (run (write_header 410 ∷ [])))
link_life_example =
    link_life new_v4 parts post fetch delete fetch (str "https://x") token (str "01") world 0 2 3 4
      parts-Works open_queue.0 open_queue.1 token_claims refl (omega arith) post-IsPost created
      fetch-IsGet delete-IsDelete (omega arith) fetch-IsGet

-- From an address outside the trusted subnets.
abbrev stats_request : HttpRequest
stats_request = sent (str "GET") (str "/api/internal/stats") (str "") (str "") none

stats_found : find_route routes (str "GET") (str "/api/internal/stats") ≡ some stats_route
unfolding str_eq
stats_found = refl

stats_guarded_example :
    IsTrustedSender F.net F.trusting (str "z") (str "") (str "")
    ⊎ ((serve_http parts stats_request world 0).0 ≡ wrapped (run (write_header 403 ∷ [])))
      × ((serve_http parts stats_request world 0).1 ≡ world)
stats_guarded_example = stats_guarded parts stats_request world 0 parts-Works.generates stats_found
