-- ===== src/Filter.antt =====
-- internal/filter/filter.go, and the middleware and the interceptor built over it
-- (internal/http/middleware/filter, internal/grpc/interceptors/filter). Addresses, prefixes and their
-- parsers are net/netip's.
pub mod Lists
pub mod Tests
pub mod Trust
pub mod Senders
use shorty.Base.{
  Str, str, ℕ, Bool, true, false, not, ◌&&◌, List, [], ◌∷◌, any, str_eq, ◌==◌, if◌then◌else◌,
}
use shorty.Errors.{Result, ok, err, wrap}

-- What the code uses of net/netip. ParseAddrPort is given with Addr of its result.
pub record Netip : Type 1 where
  pub Addr : Type 0
  pub Prefix : Type 0
  pub parse_addr : Str → Result Addr
  pub parse_addr_port : Str → Result Addr
  pub parse_prefix : Str → Result Prefix
  pub contains : Prefix → Addr → Bool

abbrev cons_first : ℕ → List Str → List Str
cons_first c [] = (c ∷ []) ∷ []
cons_first c (s ∷ ss) = (c ∷ s) ∷ ss

-- strings.Split(s, ",")
unfoldable pub split_comma : Str → List Str
split_comma [] = [] ∷ []
split_comma (c ∷ s) = let rest = split_comma s in if c == b',' then [] ∷ rest else cons_first c rest

-- strings.TrimLeft(s, " ")
unfoldable pub trim_left : Str → Str
trim_left [] = []
trim_left (c ∷ s) = let rest = trim_left s in if c == b' ' then rest else c ∷ s

module _ {T : Type 0} (parse : Str → Result T) where
  unfoldable pub add_entity : Result T → Result (List T) → Result (List T)
  add_entity (err e) later = err (wrap (str "cannot parse entity") e)
  add_entity (ok t) (err e) = err e
  add_entity (ok t) (ok ts) = ok (t ∷ ts)

  -- The loop of parseSliceFromString.
  unfoldable pub parse_entities : List Str → Result (List T)
  parse_entities [] = ok []
  parse_entities (s ∷ ss) = add_entity (parse (trim_left s)) (parse_entities ss)

  unfoldable pub parse_slice_from_string : Str → Result (List T)
  parse_slice_from_string s = if str_eq s (str "") then ok [] else parse_entities (split_comma s)

abbrev pub is_ok_true : Result Bool → Bool
is_ok_true (ok b) = b
is_ok_true (err e) = false

module _ (net : Netip) where
  open net use {Addr, Prefix, parse_addr, parse_addr_port, parse_prefix, contains}

  pub record Filter : Type 0 where
    pub subnets : List Prefix
    pub trust_xff : Bool
    pub trust_x_real_ip : Bool

  abbrev pub is_inside : List Prefix → Addr → Bool
  is_inside subnets addr = any (λ subnet. contains subnet addr) subnets

  abbrev new_filter : Bool → Bool → Result (List Prefix) → Result Filter
  new_filter xff real (err e) = err e
  new_filter xff real (ok prefixes) =
      ok (record { subnets = prefixes; trust_xff = xff; trust_x_real_ip = real })

  -- New
  unfoldable pub new : Str → Bool → Bool → Result Filter
  new subnets xff real = new_filter xff real (parse_slice_from_string parse_prefix subnets)

  module _ (f : Filter) where
    abbrev match_addr : Str → Result Addr → Result Bool
    match_addr text (err e) = err (wrap text e)
    match_addr text (ok addr) = ok (is_inside f.subnets addr)

    check_ip_error : Str → Result Bool
    check_ip_error ip =
        if str_eq ip (str "")
        then ok false
        else match_addr (str "cannot parse ip address string") (parse_addr ip)

    check_ip_port_error : Str → Result Bool
    check_ip_port_error ip =
        if str_eq ip (str "")
        then ok false
        else match_addr (str "cannot parse ip:port address string") (parse_addr_port ip)

    pub check_ip : Str → Bool
    unfolding check_ip_error
    check_ip ip = is_ok_true (check_ip_error ip)

    unfoldable pub check_ip_port : Str → Bool
    unfolding check_ip_port_error
    check_ip_port ip = is_ok_true (check_ip_port_error ip)

    -- The nested loops of CheckIPList.
    pub all_inside : List Addr → Bool
    all_inside [] = true
    all_inside (addr ∷ addrs) = is_inside f.subnets addr && all_inside addrs

    check_addrs : Result (List Addr) → Bool
    check_addrs (err e) = false
    check_addrs (ok []) = false
    check_addrs (ok (addr ∷ addrs)) = all_inside (addr ∷ addrs)

    pub check_ip_list : Str → Bool
    unfolding check_addrs
    check_ip_list ips = check_addrs (parse_slice_from_string parse_addr ips)

    unfoldable pub check_request_params : Str → Str → Str → Bool
    check_request_params remote_addr x_real_ip x_forwarded_for =
        if check_ip_port remote_addr
        then true
        else if f.trust_x_real_ip && check_ip x_real_ip
        then true
        else f.trust_xff && check_ip_list x_forwarded_for

    -- `block` of NewFromFilter, in both transports.
    abbrev block : Bool
    block = elim f.subnets [ [] ↦ true | _ ↦ false ]

    -- The middleware calls the next handler, or answers 403.
    pub http_passes : Str → Str → Str → Bool
    http_passes remote_addr x_real_ip x_forwarded_for =
        not block && check_request_params remote_addr x_real_ip x_forwarded_for

    abbrev method_match : List Str → Str → Bool
    method_match methods method = any (λ m. str_eq m method) methods

    -- The interceptor calls the handler, or answers PermissionDenied. Metadata and peer that are
    -- missing are empty strings.
    unfoldable pub grpc_passes : List Str → Str → Str → Str → Str → Bool
    grpc_passes methods method remote_addr x_real_ip x_forwarded_for =
        if not (method_match methods method)
        then true
        else if block
        then false
        else check_request_params remote_addr x_real_ip x_forwarded_for
