-- ===== src/Grpc/Server/Panics.antt =====
-- A panic behind the interceptors (internal/grpc/interceptors/logging/logging.go), and the same one
-- behind the HTTP middleware (internal/http/middleware/logging/logging.go).
use shorty.Base.{Str, ℕ, ◌≡◌, ◌↔◌, refl, ap, none, some, List, [], str_eq}
use shorty.Errors.{Result, ok, err, Outcome, returns, panics}
use shorty.Session.{Context}
use shorty.Auth.Issuing.{Generates, SignsAll, request_id_intercept_calls, auth_intercept_calls}
use shorty.Filter.Senders.{grpc_passes_unfiltered}
use shorty.Shortener.{World}
use shorty.Resolver.{resolve}
use shorty.Resolver.Paths.{resolve_panics_iff}
use shorty.Grpc.{Reply, grpc_resolve, needs_req_id, resolve_reply}
use shorty.Grpc.Server.{
  resolve_call, Message, GrpcCall, GrpcParts, filtered_call, recovered, serve_call,
  filtered_methods, full_method, empty_context, outcome_of,
}

-- A call of Resolve, with metadata that has these session values.
abbrev pub resolving : GrpcCall → List Str → Str → GrpcCall
resolving c vals path = record c { method = resolve_call path; session = some vals }

-- What the client gets where the service returns this.
abbrev pub reply_to : Outcome (Result Str) → Reply Message
reply_to o = elim (outcome_of (resolve_reply o)) [ panics ↦ (none, none) | returns r ↦ r ]

module _ {S : Type 0} (p : GrpcParts S) (generates : Generates p.auth)
    (signs : SignsAll p.auth) where
  filtered_resolving :
      (c : GrpcCall) (vals : List Str) (path id : Str) (ctx : Context) (w : World S) (n : ℕ)
      → ctx.req_id ≡ some id
      → (m : ℕ) × (filtered_call p (resolving c vals path) ctx w n ≡ (
        outcome_of (resolve_reply (resolve p.st.get path w.store).0),
        record w { store = (resolve p.st.get path w.store).1 },
        m,
      ))
  unfolding filtered_call str_eq grpc_resolve needs_req_id
  filtered_resolving c vals path id ctx w n identified =
      let (u, tok, m, called) =
        auth_intercept_calls p.auth generates signs p.secret c.now ctx vals n in
      (
        m,
        rw
            (
              grpc_passes_unfiltered p.net p.filter c.remote_addr c.x_real_ip c.x_forwarded_for
                  filtered_methods (full_method (resolve_call path)) refl,
              called,
              identified,
            )
            refl,
      )

  recovered_outcome :
      (o : Outcome (Result Str)) (w : World S) (m : ℕ)
      → recovered p (outcome_of (resolve_reply o), w, m) ≡ (reply_to o, w, m)
  unfolding recovered resolve_reply
  recovered_outcome panics w m = refl
  recovered_outcome (returns (err e)) w m = refl
  recovered_outcome (returns (ok url)) w m = refl

  serve_resolving :
      (c : GrpcCall) (vals : List Str) (path : Str) (w : World S) (n : ℕ)
      → (m : ℕ) × (serve_call p (resolving c vals path) w n ≡ (
        reply_to (resolve p.st.get path w.store).0,
        record w { store = (resolve p.st.get path w.store).1 },
        m,
      ))
  unfolding serve_call
  serve_resolving c vals path w n =
      let (id, k, called) =
        request_id_intercept_calls p.auth generates p.trust empty_context c.req_id n in
      let (m, filtered) =
        filtered_resolving c vals path id (record { user = none; req_id = some id }) w k refl in
      (m, rw (called, filtered, recovered_outcome (resolve p.st.get path w.store).0) refl)

  reply_to_panics :
      (o : Outcome (Result Str)) → ◌≡◌ {A = Reply Message} (reply_to o) (none, none) → o ≡ panics
  unfolding resolve_reply
  reply_to_panics panics h = refl
  reply_to_panics (returns (err e)) h = cc h
  reply_to_panics (returns (ok url)) h = cc h

  -- Let UUIDs be generated and tokens be signed. A call of Resolve with metadata, through all
  -- interceptors, is answered by what Resolve of the resolver service returns; and it is answered by
  -- neither a URL nor an error, which is no error to the client, if and only if its path is empty,
  -- where the service panics.
  pub resolve_answered :
      (c : GrpcCall) (vals : List Str) (path : Str) (w : World S) (n : ℕ)
      → ((serve_call p (resolving c vals path) w n).0 ≡ reply_to (resolve p.st.get path w.store).0)
        × ((serve_call p (resolving c vals path) w n).1
            ≡ record w { store = (resolve p.st.get path w.store).1 })
        × (((serve_call p (resolving c vals path) w n).0 ≡ (none, none)) ↔ (path ≡ []))
  unfolding resolve_reply
  resolve_answered c vals path w n =
      let (m, served) = serve_resolving c vals path w n in
      let panic = resolve_panics_iff p.st.get path w.store in
      rw served
        (refl, refl, ((λ h. panic.0 (reply_to_panics _ h)), λ empty. ap reply_to (panic.1 empty)))
