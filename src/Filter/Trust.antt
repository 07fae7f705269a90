-- ===== src/Filter/Trust.antt =====
-- Who passes the filter (internal/filter/filter.go, internal/http/middleware/filter/filter.go,
-- internal/grpc/interceptors/filter/filter.go).
use shorty.Base.{
  Str, str, ◌≡◌, ◌≢◌, ◌⊎◌, inl, inr, refl, true, false, ◌&&◌, List, [], ◌∷◌, arith, All, Any,
  str_eq, if◌then◌else◌, Bool-cases,
}
use mathlib.Core.Bool.{and-eq-true_iff}
use shorty.Errors.{Result, ok, err}
use shorty.Filter.{
  Netip, Filter, is_inside, all_inside, match_addr, check_ip, check_ip_port, check_ip_list,
  check_addrs, check_request_params, http_passes, grpc_passes, parse_slice_from_string,
  method_match, is_ok_true,
}

module _ (net : Netip) (f : Filter net) where
  open net use {Addr, Prefix, parse_addr, parse_addr_port, contains}

  -- The address lies in one of the trusted subnets.
  abbrev IsTrusted : Addr → Type 0
  IsTrusted addr = Any (λ subnet. contains subnet addr ≡ true) f.subnets

  trusted_of_inside :
      (addr : Addr) (subnets : List Prefix)
      → is_inside net subnets addr ≡ true
      → Any (λ subnet. contains subnet addr ≡ true) subnets
  trusted_of_inside addr [] h = cc
  trusted_of_inside addr (p ∷ ps) h = elim (Bool-cases (contains p addr)) [
    | inl here ↦ inl here
    | inr there ↦ inr (trusted_of_inside addr ps (rw there at h))
  ]

  all_inside_sound : (addrs : List Addr) → all_inside net f addrs ≡ true → All IsTrusted addrs
  unfolding all_inside
  all_inside_sound [] h = tt
  all_inside_sound (a ∷ addrs) h =
      (trusted_of_inside a f.subnets (ground arith), all_inside_sound addrs (ground arith))

  -- The text is an address in a trusted subnet, by this parser.
  abbrev pub IsTrustedText : (Str → Result Addr) → Str → Type 0
  IsTrustedText parse text = (addr : Addr) × (parse text ≡ ok addr) × IsTrusted addr

  -- The text is a list of addresses, not empty, and all of them are in trusted subnets.
  abbrev pub IsTrustedList : Str → Type 0
  IsTrustedList text =
      (addrs : List Addr) × (parse_slice_from_string parse_addr text ≡ ok addrs)
      × (addrs ≢ [])
      × All IsTrusted addrs

  match_addr_sound :
      (text : Str) (r : Result Addr)
      → is_ok_true (match_addr net f text r) ≡ true
      → (addr : Addr) × (r ≡ ok addr) × IsTrusted addr
  match_addr_sound text (err e) h = cc
  match_addr_sound text (ok addr) h = (addr, refl, trusted_of_inside addr f.subnets h)

  -- An empty text is refused, and any other is matched.
  unless_empty :
      (text message_ : Str) (r : Result Addr)
      → is_ok_true (if str_eq text (str "") then ok false else match_addr net f message_ r) ≡ true
      → (addr : Addr) × (r ≡ ok addr) × IsTrusted addr
  unless_empty text message_ r h = elim (Bool-cases (str_eq text (str ""))) [
    | inl empty ↦ cc (rw empty at h)
    | inr full ↦ match_addr_sound message_ r (rw full at h)
  ]

  check_ip_port_sound :
      (text : Str) → check_ip_port net f text ≡ true → IsTrustedText parse_addr_port text
  unfolding check_ip_port
  check_ip_port_sound text h = unless_empty text _ (parse_addr_port text) h

  check_ip_sound : (text : Str) → check_ip net f text ≡ true → IsTrustedText parse_addr text
  unfolding check_ip
  check_ip_sound text h = unless_empty text _ (parse_addr text) h

  check_addrs_sound :
      (r : Result (List Addr))
      → check_addrs net f r ≡ true
      → (addrs : List Addr) × (r ≡ ok addrs) × (addrs ≢ []) × All IsTrusted addrs
  unfolding check_addrs
  check_addrs_sound (err e) h = cc
  check_addrs_sound (ok []) h = cc
  check_addrs_sound (ok (a ∷ addrs)) h =
      (a ∷ addrs, refl, (λ e. cc), all_inside_sound (a ∷ addrs) h)

  check_ip_list_sound : (text : Str) → check_ip_list net f text ≡ true → IsTrustedList text
  unfolding check_ip_list
  check_ip_list_sound text h = check_addrs_sound (parse_slice_from_string parse_addr text) h

  -- A request that passes the check comes from a trusted address, or names one in X-Real-IP while
  -- this header is trusted, or names trusted addresses only in X-Forwarded-For while that one is.
  pub check_request_params_sound :
      (remote_addr x_real_ip x_forwarded_for : Str)
      → check_request_params net f remote_addr x_real_ip x_forwarded_for ≡ true
      → IsTrustedText parse_addr_port remote_addr
        ⊎ ((f.trust_x_real_ip ≡ true) × IsTrustedText parse_addr x_real_ip
            ⊎ (f.trust_xff ≡ true) × IsTrustedList x_forwarded_for)
  unfolding check_request_params
  check_request_params_sound remote_addr x_real_ip x_forwarded_for h =
      elim (Bool-cases (check_ip_port net f remote_addr)) [
        | inl remote ↦ inl (check_ip_port_sound remote_addr remote)
        | inr other ↦ elim (Bool-cases (f.trust_x_real_ip && check_ip net f x_real_ip)) [
          | inl real ↦
              let both = (and-eq-true_iff _ _).0 real in
              inr (inl (both.0, check_ip_sound x_real_ip both.1))
          | inr no_real ↦
              let both = (and-eq-true_iff _ _).0 (rw (other, no_real) at h) in
              inr (inr (both.0, check_ip_list_sound x_forwarded_for both.1))
        ]
      ]

  no_trust : f.subnets ≡ [] → (addr : Addr) → ¬ IsTrusted addr
  no_trust e addr t = rw e at t

  nothing_listed : f.subnets ≡ [] → (addrs : List Addr) → addrs ≢ [] → ¬ All IsTrusted addrs
  nothing_listed e [] some_ t = some_ refl
  nothing_listed e (a ∷ addrs) some_ (t, _) = no_trust e a t

  -- Without trusted subnets the check itself refuses every request.
  check_request_params-no_subnets :
      (remote_addr x_real_ip x_forwarded_for : Str)
      → f.subnets ≡ []
      → check_request_params net f remote_addr x_real_ip x_forwarded_for ≡ false
  check_request_params-no_subnets remote_addr x_real_ip x_forwarded_for e =
      elim (Bool-cases (check_request_params net f remote_addr x_real_ip x_forwarded_for)) [
        | inl passed ↦
            absurd (elim (check_request_params_sound remote_addr x_real_ip x_forwarded_for passed) [
              | inl (addr, _, t) ↦ no_trust e addr t
              | inr (inl (_, (addr, _, t))) ↦ no_trust e addr t
              | inr (inr (_, (addrs, _, some_, t))) ↦ nothing_listed e addrs some_ t
            ])
        | inr refused ↦ refused
      ]

  -- With the same request data the middleware and the interceptor decide alike on every method
  -- that the interceptor filters; without trusted subnets no request passes the middleware, and
  -- the check itself refuses every request.
  pub transports_agree :
      (methods : List Str) (method remote_addr x_real_ip x_forwarded_for : Str)
      → method_match net f methods method ≡ true
      → (grpc_passes net f methods method remote_addr x_real_ip x_forwarded_for
          ≡ http_passes net f remote_addr x_real_ip x_forwarded_for)
        × (f.subnets ≡ []
            → (http_passes net f remote_addr x_real_ip x_forwarded_for ≡ false)
              × (check_request_params net f remote_addr x_real_ip x_forwarded_for ≡ false))
  unfolding grpc_passes http_passes
  transports_agree methods method remote_addr x_real_ip x_forwarded_for h = (
    ground arith,
    λ e. (ground arith, check_request_params-no_subnets remote_addr x_real_ip x_forwarded_for e),
  )
