-- ===== src/Grpc/Server/Shortening.antt =====
-- Which calls of Shorten are answered by a short URL (internal/grpc/server,
-- internal/grpc/interceptors).
use shorty.Base.{Str, ℕ, ◌≡◌, refl, arith, ap, sym, ◌∙◌, Option, none, some, str_eq}
use shorty.Errors.{Err, Result, ok, err, Outcome, returns, panics}
use shorty.Model.{User}
use shorty.Session.{Context, get_user_and_req_id}
use shorty.Auth.{Decision, calls, fails, auth_intercept, request_id_intercept}
use shorty.Filter.Senders.{grpc_passes_unfiltered}
use shorty.Shortener.{World, shorten}
use shorty.Grpc.{internal, Reply, grpc_shorten, needs_user, shorten_reply, replying}
use shorty.Grpc.Server.{
  shorten_call, Message, shortened, GrpcCall, GrpcParts, Handled, after_auth, after_id,
  filtered_call, recovered, serve_call, filtered_methods, full_method, empty_context, reply_of,
  returned,
}

abbrev pub shortening : GrpcCall → Str → GrpcCall
shortening c url = record c { method = shorten_call url }

-- A reply that has a short URL and no error.
abbrev Gives : Str → Outcome (Reply Message) → Type 0
Gives short o = o ≡ returns (some (shortened short), none)

shorten_reply-answered :
    (r : Str × Option Err) (short : Str) → shorten_reply r ≡ (some short, none) → r ≡ (short, none)
unfolding shorten_reply
shorten_reply-answered (s, none) short h = cc h
shorten_reply-answered (s, some e) short h = ground arith

reply_of-answered :
    {short : Str} (r : Reply Str)
    → ◌≡◌ {A = Outcome (Reply Message)}
        (returns (reply_of shortened r))
        (returns (some (shortened short), none))
    → r ≡ (some short, none)
reply_of-answered (none, c) h = cc h
reply_of-answered (some a, c) h = cc h

module _ {S : Type 0} (p : GrpcParts S) (url short : Str) (w : World S) where
  -- The service made the link, for some user, and left this state.
  pub record IsMade (after : World S) : Type 0 where
    pub user : User
    pub made : (shorten p.st p.intn p.svc p.parse user url w).0 ≡ (short, none)
    pub state : after ≡ (shorten p.st p.intn p.svc p.parse user url w).1

  service-IsMade :
      (u : User) (r : (Str × Option Err) × World S)
      → r ≡ shorten p.st p.intn p.svc p.parse u url w
      → (returned shortened (replying shorten_reply r)).0 ≡ returns (some (shortened short), none)
      → IsMade r.1
  service-IsMade u (a, w') same h = record {
    user = u;
    made =
        ap (λ r. r.0) (sym same)
        ∙ shorten_reply-answered a short (reply_of-answered (shorten_reply a) h);
    state = ap (λ r. r.1) same;
  }

  method-IsMade :
      (ctx : Context) (r : Result (User × Str))
      → r ≡ get_user_and_req_id ctx
      → Gives short
          (returned shortened (
            needs_user w
              (none, some internal)
              r
              λ u. replying shorten_reply (shorten p.st p.intn p.svc p.parse u url w))).0
      → IsMade
          (returned shortened (
            needs_user w
              (none, some internal)
              r
              λ u. replying shorten_reply (shorten p.st p.intn p.svc p.parse u url w))).1
  unfolding needs_user
  method-IsMade ctx (err e) same h = cc h
  method-IsMade ctx (ok (u, id)) same h =
      service-IsMade u (shorten p.st p.intn p.svc p.parse u url w) refl h

  after_auth-IsMade :
      (c : GrpcCall) (d : Decision × ℕ)
      → Gives short (after_auth p (shortening c url) d w).0
      → IsMade (after_auth p (shortening c url) d w).1
  unfolding grpc_shorten
  after_auth-IsMade c (fails, n) h = cc h
  after_auth-IsMade c (calls ctx token, n) h = method-IsMade ctx (get_user_and_req_id ctx) refl h

  filtered_call-IsMade :
      (c : GrpcCall) (ctx : Context) (n : ℕ)
      → Gives short (filtered_call p (shortening c url) ctx w n).0
      → IsMade (filtered_call p (shortening c url) ctx w n).1
  unfolding filtered_call str_eq
  filtered_call-IsMade c ctx n =
      rw
        (grpc_passes_unfiltered p.net p.filter c.remote_addr c.x_real_ip c.x_forwarded_for
          filtered_methods (full_method (shorten_call url)) refl)
        (after_auth-IsMade c (auth_intercept p.auth p.secret c.now ctx c.session n))

  recovered-IsMade :
      (o : Handled S)
      → (Gives short o.0 → IsMade o.1)
      → (recovered p o).0 ≡ (some (shortened short), none)
      → IsMade (recovered p o).1
  unfolding recovered
  recovered-IsMade (panics, w', n) made h = cc h
  recovered-IsMade (returns a, w', n) made h = made (ap returns h)

  after_id-IsMade :
      (c : GrpcCall) (d : Decision × ℕ)
      → (after_id p (shortening c url) d w).0 ≡ (some (shortened short), none)
      → IsMade (after_id p (shortening c url) d w).1
  after_id-IsMade c (fails, n) h = cc h
  after_id-IsMade c (calls ctx token, n) h =
      recovered-IsMade (filtered_call p (shortening c url) ctx w n) (filtered_call-IsMade c ctx n) h

  pub serve_call-IsMade :
      (c : GrpcCall) (n : ℕ)
      → (serve_call p (shortening c url) w n).0 ≡ (some (shortened short), none)
      → IsMade (serve_call p (shortening c url) w n).1
  unfolding serve_call
  serve_call-IsMade c n h =
      after_id-IsMade c (request_id_intercept p.auth p.trust empty_context c.req_id n) h
