-- ===== src/Filter/Senders.antt =====
-- Who passes the middleware and the interceptor (internal/http/middleware/filter/filter.go,
-- internal/grpc/interceptors/filter/filter.go).
use shorty.Base.{Str, ◌≡◌, ◌⊎◌, true, false, List, arith}
use mathlib.Core.Bool.{and-eq-true_iff}
use shorty.Filter.{Netip, Filter, http_passes, grpc_passes, method_match}
use shorty.Filter.Trust.{IsTrustedText, IsTrustedList, check_request_params_sound}

module _ (net : Netip) (f : Filter net) where
  open net use {parse_addr, parse_addr_port}

  -- The remote address lies in a trusted subnet, or a header that is trusted names addresses that do.
  abbrev pub IsTrustedSender : Str → Str → Str → Type 0
  IsTrustedSender remote_addr x_real_ip x_forwarded_for =
      IsTrustedText net f parse_addr_port remote_addr
      ⊎ ((f.trust_x_real_ip ≡ true) × IsTrustedText net f parse_addr x_real_ip
          ⊎ (f.trust_xff ≡ true) × IsTrustedList net f x_forwarded_for)

  module _ (remote_addr x_real_ip x_forwarded_for : Str) where
    pub http_passes_sound :
        http_passes net f remote_addr x_real_ip x_forwarded_for ≡ true
        → IsTrustedSender remote_addr x_real_ip x_forwarded_for
    unfolding http_passes
    http_passes_sound h =
        check_request_params_sound net f remote_addr x_real_ip x_forwarded_for
          ((and-eq-true_iff _ _).0 h).1

    pub grpc_passes_sound :
        (methods : List Str) (method : Str)
        → method_match net f methods method ≡ true
        → grpc_passes net f methods method remote_addr x_real_ip x_forwarded_for ≡ true
        → IsTrustedSender remote_addr x_real_ip x_forwarded_for
    unfolding grpc_passes
    grpc_passes_sound methods method filtered h =
        check_request_params_sound net f remote_addr x_real_ip x_forwarded_for (ground arith)

    pub grpc_passes_unfiltered :
        (methods : List Str) (method : Str)
        → method_match net f methods method ≡ false
        → grpc_passes net f methods method remote_addr x_real_ip x_forwarded_for ≡ true
    unfolding grpc_passes
    grpc_passes_unfiltered methods method h = ground arith
