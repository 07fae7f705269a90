-- ===== src/Grpc/Server.antt =====
-- internal/grpc/server/server.go: the chain of interceptors that NewServer makes, around the
-- methods of internal/grpc/server/handlers.go; the deadline is left out. The logging interceptor is
-- internal/grpc/interceptors/logging/logging.go. The names of the methods are those of the
-- generated internal/grpc/shorty_grpc.pb.go.
pub mod Answers
pub mod Panics
pub mod Shortening
pub mod Tests
use shorty.Base.{Str, str, ℕ, Bool, Option, none, some, List, [], ◌∷◌, if◌then◌else◌}
use mathlib.Core.Option as O
use shorty.Errors.{Result, Outcome, returns, panics}
use shorty.Model.{Url, Stats, Storage}
use shorty.Session.{Context}
use shorty.Auth.{Decision, calls, fails, auth_intercept, request_id_intercept}
use shorty.Auth as A
use shorty.Filter.{Netip, Filter, grpc_passes}
use shorty.Shortener.{Service, ParsedUrl, World, BatchUrl, BatchShortened}
use shorty.Grpc.{
  internal, permission_denied, Reply, failed, grpc_stats, grpc_resolve, grpc_shorten,
  grpc_shorten_batch, grpc_get_all, grpc_delete_batch,
}

-- A call, by its method and its request.
pub data Method : Type 0 where
  resolve_call shorten_call : Str → Method
  shorten_batch_call : List BatchUrl → Method
  delete_batch_call : List Str → Method
  get_all_call stats_call : Method

-- The responses of the methods.
pub data Message : Type 0 where
  resolved shortened : Str → Message
  batch : List BatchShortened → Message
  urls : List Url → Message
  statistics : Stats → Message
  deleted : Message

abbrev full_method : Method → Str
full_method (resolve_call path) = str "/shorty.shortener/Resolve"
full_method (shorten_call url) = str "/shorty.shortener/Shorten"
full_method (shorten_batch_call b) = str "/shorty.shortener/ShortenBatch"
full_method (delete_batch_call shorts) = str "/shorty.shortener/DeleteBatch"
full_method get_all_call = str "/shorty.shortener/GetAll"
full_method stats_call = str "/shorty.shortener/Stats"

-- What an interceptor reads of a call: the first value of the request ids, the session values, if
-- there is metadata, and the addresses; and the time.
pub record GrpcCall : Type 0 where
  pub method : Method
  pub req_id : Option Str
  pub session : Option (List Str)
  pub remote_addr : Str
  pub x_real_ip : Str
  pub x_forwarded_for : Str
  pub now : ℕ

pub record GrpcParts (S : Type 0) : Type 1 where
  pub st : Storage S
  pub intn : ℕ → ℕ → ℕ
  pub svc : Service
  pub parse : Str → Result ParsedUrl
  pub auth : A.Library
  pub secret : Str
  pub trust : Bool
  pub net : Netip
  pub filter : Filter net

abbrev reply_of : {A : Type 0} → (A → Message) → Reply A → Reply Message
reply_of f (none, c) = (none, c)
reply_of f (some a, c) = (some (f a), c)

abbrev returned : {A W : Type 0} → (A → Message) → Reply A × W → Outcome (Reply Message) × W
returned f (a, w) = (returns (reply_of f a), w)

abbrev outcome_of : Outcome (Reply Str) → Outcome (Reply Message)
outcome_of panics = panics
outcome_of (returns a) = returns (reply_of resolved a)

abbrev resolved_outcome : {W : Type 0} → Outcome (Reply Str) × W → Outcome (Reply Message) × W
resolved_outcome (o, w) = (outcome_of o, w)

abbrev empty_context : Context
empty_context = record { user = none; req_id = none }

abbrev filtered_methods : List Str
filtered_methods = str "/shorty.shortener/Stats" ∷ []

-- A reply or a panic, the state, and how often the UUID generator was called.
abbrev pub Handled : Type 0 → Type 0
Handled S = Outcome (Reply Message) × World S × ℕ

module _ {S : Type 0} (p : GrpcParts S) where
  abbrev pub call_method : ℕ → Method → Context → World S → Outcome (Reply Message) × World S
  call_method now (resolve_call path) ctx w = resolved_outcome (grpc_resolve p.st ctx path w)
  call_method now (shorten_call url) ctx w =
      returned shortened (grpc_shorten p.st p.intn p.svc p.parse ctx url w)
  call_method now (shorten_batch_call b) ctx w =
      returned batch (grpc_shorten_batch p.st p.intn p.svc ctx b w)
  call_method now (delete_batch_call shorts) ctx w =
      returned (λ _. deleted) (grpc_delete_batch now ctx shorts w)
  call_method now get_all_call ctx w = returned urls (grpc_get_all p.st p.intn p.svc ctx w)
  call_method now stats_call ctx w = returned statistics (grpc_stats p.st w)

  abbrev counted : Outcome (Reply Message) × World S → ℕ → Handled S
  counted (o, w) n = (o, w, n)

  -- The auth interceptor, with what it decides, around the method.
  abbrev after_auth : GrpcCall → Decision × ℕ → World S → Handled S
  after_auth c (fails, n) w = (returns (failed internal), w, n)
  after_auth c (calls ctx token, n) w = counted (call_method c.now c.method ctx w) n

  -- The filter interceptor around it.
  filtered_call : GrpcCall → Context → World S → ℕ → Handled S
  filtered_call c ctx w n =
      if grpc_passes p.net p.filter filtered_methods (full_method c.method) c.remote_addr
        c.x_real_ip c.x_forwarded_for
      then after_auth c (auth_intercept p.auth p.secret c.now ctx c.session n) w
      else (returns (failed permission_denied), w, n)

  -- The logging interceptor: after a panic that it recovers, its results have their zero values.
  recovered : Handled S → Reply Message × World S × ℕ
  recovered (panics, w, n) = ((none, none), w, n)
  recovered (returns a, w, n) = (a, w, n)

  -- The request id interceptor, with what it decides, around the others.
  abbrev after_id : GrpcCall → Decision × ℕ → World S → Reply Message × World S × ℕ
  after_id c (fails, n) w = (failed internal, w, n)
  after_id c (calls ctx token, n) w = recovered (filtered_call c ctx w n)

  -- A call through all interceptors: the response, nil at `none`, the code of the error, none for
  -- nil, the state, and how often the UUID generator was called.
  pub serve_call : GrpcCall → World S → ℕ → Reply Message × World S × ℕ
  serve_call c w n = after_id c (request_id_intercept p.auth p.trust empty_context c.req_id n) w
