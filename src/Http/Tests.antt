-- ===== src/Http/Tests.antt =====
-- Responses through the middleware, on concrete handlers and requests.
use shorty.Base.{
  Str, str, ℕ, ◌≡◌, ◌⊎◌, refl, true, false, Option, none, some, List, [], ◌∷◌, lookup,
  if◌then◌else◌,
}
use shorty.Errors.{Err, Result, ok, err, message, join, is, shortener_err, invalid_url}
use shorty.Model.{UrlRecord, User, is_new}
use shorty.Memory.{Memory, memory_storage}
use shorty.Buffer.{new_flusher}
use shorty.Generators.Tests.{counting}
use shorty.Session.{Context, get_user_and_req_id}
use shorty.Resolver.Paths.{is_valid}
use shorty.Shortener.{Service, ParsedUrl, World, flusher_config, shorten}
use shorty.Http.Writer.{Wire, Encoder, Action, set_header, write_header, write, serve_wrapped}
use shorty.Http.Writer.Statuses.{sent_code, last_code, serve_wrapped-status}
use shorty.Http.Replies.{content_type_json}
use shorty.Http.Handlers.{
  Request, Library, read_body, handle_delete_batch, handle_shorten, handle_resolve,
}
use shorty.Http.Handlers.Answers.{
  client_status, delete_batch_accepted, invalid_url_answered, client_status-handle_resolve,
  record_code,
}

abbrev pub net_write : Wire → Str → ℕ × Option Err
net_write w s = (shorty.Base.length s, none)

abbrev pub encoder : Encoder
encoder = record { emit = λ e writes s. s; trailer = λ e writes. str "." }

abbrev actions : List Action
actions =
    set_header (str "Content-Type") (str "text/plain")
    ∷ write_header 400
    ∷ write_header 201
    ∷ write (str "x")
    ∷ write_header 500
    ∷ []

serve_wrapped-status_example :
    ((serve_wrapped net_write encoder (str "gzip") actions false).wire.status
      ≡ some (sent_code (last_code actions 0)))
    × ((serve_wrapped net_write encoder (str "gzip") actions false).wire.panicked ≡ false)
serve_wrapped-status_example = serve_wrapped-status net_write encoder (str "gzip") actions

code_test : some (sent_code (last_code actions 0)) ≡ some 201
code_test = refl

abbrev pub service : Service
service = record {
  served_scheme = str "https";
  redirect_scheme = str "https";
  host = str "sho.rt";
  path_length = 2;
}

-- Nothing parses.
abbrev pub parse : Str → Result ParsedUrl
parse s = err (message (str "missing protocol scheme"))

-- Bodies are their own JSON values; a list of URLs has one element.
abbrev pub library : Library
library = record {
  gunzip = λ r. r;
  inflate = λ r. r;
  unmarshal_request = λ s. ok s;
  unmarshal_batch = λ s. ok [];
  unmarshal_shorts = λ s. ok (s ∷ []);
  marshal_response = λ s. ok s;
  marshal_shortened = λ l. ok [];
  marshal_urls = λ l. ok [];
  marshal_stats = λ s. ok [];
}

abbrev pub request : Request
request = record {
  path = str "/01";
  content_type = content_type_json;
  content_encoding = str "";
  body = ok (str "01");
}

pub body_read : read_body library request ≡ ok (str "01")
unfolding read_body shorty.Base.str_eq
body_read = refl

-- A user that was created for this request.
abbrev pub user : User
user = record { id = str "u"; new = true }

abbrev pub context : Context
context = record { user = some user; req_id = some (str "r") }

pub context_complete : get_user_and_req_id context ≡ ok (user, str "r")
unfolding get_user_and_req_id
context_complete = refl

abbrev pub new_v4 : ℕ → Result Str
new_v4 n = ok (n ∷ [])

abbrev gone : UrlRecord
gone = record {
  uuid = str "0";
  short_url = str "01";
  original_url = str "https://y";
  user_id = str "v";
  is_deleted = true;
}

abbrev pub world : World Memory
world = record {
  store = record { db = (str "01", gone) ∷ []; drawn = 1 };
  flusher = new_flusher flusher_config;
  draws = 0;
}

delete_batch_accepted_example :
    (client_status net_write encoder
        (str "")
        (handle_delete_batch
          (memory_storage new_v4)
          counting
          service
          parse
          library
          7
          context
          request
          world).0
      ≡ some 202)
    × ((is_new user ≡ true) ⊎ (◌≡◌ {A = List Str} (str "01" ∷ []) [])
        → (handle_delete_batch
            (memory_storage new_v4)
            counting
            service
            parse
            library
            7
            context
            request
            world).1
          ≡ world)
delete_batch_accepted_example =
    delete_batch_accepted net_write encoder (str "") (memory_storage new_v4) counting service parse
      library 7 context request world user (str "r") (str "01") (str "01" ∷ []) context_complete
      refl body_read refl

abbrev parse_error : Err
parse_error = message (str "missing protocol scheme")

invalid_url_answered_case :
    ((shorten (memory_storage new_v4) counting service parse user (str "01") world).0
      ≡ (str "", some (join (shortener_err invalid_url) parse_error)))
    × (is (join (shortener_err invalid_url) parse_error) (shortener_err invalid_url) ≡ true)
    × (client_status net_write encoder
          (str "")
          (handle_shorten
            (memory_storage new_v4)
            counting
            service
            parse
            library
            context
            request
            world).0
        ≡ some 500)
    × ((handle_shorten
          (memory_storage new_v4)
          counting
          service
          parse
          library
          context
          request
          world).1
        ≡ world)
invalid_url_answered_case =
    invalid_url_answered net_write encoder (str "") (memory_storage new_v4) counting service parse
      library context request world user (str "r") (str "01") (str "01") parse_error
      context_complete refl body_read refl refl

client_status-handle_resolve_example :
    (client_status net_write encoder
        (str "")
        (handle_resolve
          (memory_storage new_v4)
          counting
          service
          parse
          library
          context
          request
          world).0
      ≡ some (if is_valid (str "/01") then record_code (lookup (str "01") world.store.db) else 400))
    × ((handle_resolve
          (memory_storage new_v4)
          counting
          service
          parse
          library
          context
          request
          world).1
        ≡ world)
client_status-handle_resolve_example =
    client_status-handle_resolve net_write encoder (str "") new_v4 counting service parse library
      context request world (str "r") b'/' (str "01") refl refl
