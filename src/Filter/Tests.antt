-- ===== src/Filter/Tests.antt =====
-- A filter over addresses of one byte.
use shorty.Base.{Str, str, ℕ, ◌≡◌, ◌⊎◌, refl, true, false, [], ◌∷◌, arith, ◌==◌, map}
use shorty.Errors.{Result, ok, err, message}
use shorty.Filter.{
  Netip, Filter, check_request_params, check_ip_port, check_ip_list, check_addrs, all_inside,
  parse_slice_from_string, parse_entities, add_entity, split_comma, trim_left, grpc_passes,
  http_passes, method_match,
}
use shorty.Filter.Lists.{Item, IsItem, parse_slice_from_string-join, join_comma, padded}
use shorty.Filter.Trust.{IsTrustedText, IsTrustedList, check_request_params_sound, transports_agree}

-- A text of one byte is an address, and a prefix that contains this address only.
abbrev one_byte : Str → Result ℕ
one_byte [] = err (message (str "unable to parse IP"))
one_byte (c ∷ []) = ok c
one_byte (c ∷ d ∷ s) = err (message (str "unexpected character"))

abbrev pub net : Netip
net = record {
  Addr = ℕ;
  Prefix = ℕ;
  parse_addr = one_byte;
  parse_addr_port = one_byte;
  parse_prefix = one_byte;
  contains = λ p a. p == a;
}

abbrev pub trusting : Filter net
trusting = record { subnets = 0x61 ∷ 0x62 ∷ []; trust_xff = true; trust_x_real_ip = false }

abbrev empty_filter : Filter net
empty_filter = record { subnets = []; trust_xff = true; trust_x_real_ip = true }

passes : check_request_params net trusting (str "z") (str "a") (str "a, b") ≡ true
unfolding check_request_params check_ip_port check_ip_list check_addrs all_inside
    parse_slice_from_string parse_entities add_entity split_comma trim_left shorty.Base.str_eq
passes = refl

-- X-Real-IP is not trusted, and one of the forwarded addresses is not.
refused : check_request_params net trusting (str "z") (str "a") (str "a, z") ≡ false
unfolding check_request_params check_ip_port check_ip_list check_addrs all_inside
    parse_slice_from_string parse_entities add_entity split_comma trim_left shorty.Base.str_eq
refused = refl

check_request_params_sound_example :
    IsTrustedText net trusting one_byte (str "z")
    ⊎ ((false ≡ true) × IsTrustedText net trusting one_byte (str "a")
        ⊎ (true ≡ true) × IsTrustedList net trusting (str "a, b"))
check_request_params_sound_example =
    check_request_params_sound net trusting (str "z") (str "a") (str "a, b") passes

filtered : method_match net trusting (str "Stats" ∷ []) (str "Stats") ≡ true
unfolding shorty.Base.str_eq
filtered = refl

transports_agree_case :
    (grpc_passes net empty_filter (str "Stats" ∷ []) (str "Stats") (str "a") (str "a") (str "")
      ≡ http_passes net empty_filter (str "a") (str "a") (str ""))
    × (empty_filter.subnets ≡ []
        → (http_passes net empty_filter (str "a") (str "a") (str "") ≡ false)
          × (check_request_params net empty_filter (str "a") (str "a") (str "") ≡ false))
transports_agree_case =
    transports_agree net empty_filter (str "Stats" ∷ []) (str "Stats") (str "a") (str "a") (str "")
      filtered

abbrev item_a : Item
item_a = record { indent = 0; first = 0x61; others = [] }

abbrev item_b : Item
item_b = record { indent = 2; first = 0x62; others = [] }

item_a-IsItem : IsItem item_a
item_a-IsItem = record { no_space = omega arith; no_comma = (omega arith, tt) }

item_b-IsItem : IsItem item_b
item_b-IsItem = record { no_space = omega arith; no_comma = (omega arith, tt) }

parse_slice_from_string-join_case :
    parse_slice_from_string one_byte (join_comma (padded item_a) (map padded (item_b ∷ [])))
    ≡ ok (0x61 ∷ 0x62 ∷ [])
parse_slice_from_string-join_case =
    parse_slice_from_string-join one_byte item_a (item_b ∷ []) (0x61 ∷ 0x62 ∷ [])
      (item_a-IsItem, (item_b-IsItem, tt)) (refl, (refl, tt))
