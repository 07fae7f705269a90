-- ===== src/Grpc/Server/Tests.antt =====
-- Calls through the interceptors.
use shorty.Base.{Str, str, ◌≡◌, ◌↔◌, refl, false, none, some, [], ◌∷◌, str_eq}
use shorty.Errors.{ok}
use shorty.Model.{Stats}
use shorty.Memory.{Memory, memory_storage, db_stats}
use shorty.Generators.Tests.{counting}
use shorty.Auth.Tests as A
use shorty.Auth.Issuing.{Generates, SignsAll}
use shorty.Filter.{Filter}
use shorty.Filter.Tests as F
use shorty.Filter.Senders.{IsTrustedSender}
use shorty.Resolver.{resolve}
use shorty.Http.Tests.{service, parse, world, new_v4}
use shorty.Shortener.{get_served_url}
use shorty.Auth as Auth
use shorty.Grpc.Server.{
  stats_call, statistics, shortened, GrpcCall, GrpcParts, serve_call, filtered_call, recovered,
}
use shorty.Grpc.Server.Answers.{stats_trusted}
use shorty.Grpc.Server.Shortening.{shortening}
use shorty.Grpc.Server.Panics.{resolving, reply_to, resolve_answered}

-- Every token is its user's id.
abbrev signing : Auth.Library
signing = record A.library { signed_string = λ secret c. ok c.user_id }

abbrev parts : GrpcParts Memory
parts = record {
  st = memory_storage new_v4;
  intn = counting;
  svc = service;
  parse = parse;
  auth = signing;
  secret = str "s";
  trust = false;
  net = F.net;
  filter = F.trusting;
}

-- From the address a, which is in a trusted subnet.
abbrev pub asks_stats : GrpcCall
asks_stats = record {
  method = stats_call;
  req_id = none;
  session = some [];
  remote_addr = str "a";
  x_real_ip = str "";
  x_forwarded_for = str "";
  now = 0;
}

abbrev stored_stats : Stats
stored_stats = db_stats world.store.db

generates : Generates signing
generates n = (n ∷ [], refl)

signs : SignsAll signing
signs secret c = (c.user_id, refl)

resolve_answered_example :
    ((serve_call parts (resolving asks_stats [] []) world 0).0
      ≡ reply_to (resolve parts.st.get [] world.store).0)
    × ((serve_call parts (resolving asks_stats [] []) world 0).1
        ≡ record world { store = (resolve parts.st.get [] world.store).1 })
    × (((serve_call parts (resolving asks_stats [] []) world 0).0 ≡ (none, none))
        ↔ (◌≡◌ {A = Str} [] []))
resolve_answered_example = resolve_answered parts generates signs asks_stats [] [] world 0

given_stats : (serve_call parts asks_stats world 0).0.0 ≡ some (statistics stored_stats)
unfolding serve_call filtered_call recovered str_eq shorty.Auth.request_id_intercept
    shorty.Auth.auth_intercept shorty.Auth.create_or_parse_user shorty.Auth.create_user_and_token
    shorty.Auth.new_user shorty.Auth.new_token shorty.Auth.with_session shorty.Filter.grpc_passes
    shorty.Filter.check_request_params shorty.Filter.check_ip_port shorty.Grpc.grpc_stats
    shorty.Status.stats shorty.Memory.stats
given_stats = refl

stats_trusted_example :
    (stats_call ≡ stats_call) × IsTrustedSender F.net F.trusting (str "a") (str "") (str "")
stats_trusted_example = stats_trusted parts stored_stats asks_stats world 0 given_stats

-- Every URL parses.
abbrev pub accepting : GrpcParts Memory
accepting = record parts { parse = λ s. ok (record { scheme = str "https"; text = s }) }

pub shorten_answered :
    (serve_call accepting (shortening asks_stats (str "https://x")) world 0).0
    ≡ (some (shortened (get_served_url service (str "01"))), none)
unfolding serve_call filtered_call recovered str_eq Auth.request_id_intercept Auth.auth_intercept
    Auth.create_or_parse_user Auth.create_user_and_token Auth.new_user Auth.new_token
    Auth.with_session shorty.Session.get_user_and_req_id shorty.Filter.grpc_passes
    shorty.Grpc.grpc_shorten shorty.Grpc.needs_user shorty.Grpc.shorten_reply
    shorty.Shortener.shorten shorty.Shortener.shorten_parsed shorty.Shortener.shorten_stored
    shorty.Shortener.store_url shorty.Shortener.store_tries shorty.Shortener.store_drawn
    shorty.Shortener.store_answer get_served_url shorty.Memory.store shorty.Generators.rand_string
    shorty.Base.lookup shorty.Base.insert
shorten_answered = refl
