-- ===== src/EndToEnd/Ownership.antt =====
-- What Shorten leaves in the in-memory storage (internal/services/shortener/service.go,
-- internal/storage/memory/simple.go), for a link that it returned.
use shorty.Base.{Str, ℕ, ◌≡◌, refl, [], arith, true, false, all, str_eq_refl, lookup, ◌∷◌}
use shorty.Errors.{Result, ok, returns}
use shorty.Model.{User}
use shorty.Memory.{Memory, memory_storage, get}
use shorty.Memory.Storing.{get-store, owner-store}
use shorty.Generators.{rand_string}
use shorty.Generators.Alphabet.{IsIntn, is_alphanumeric, rand_string_lem}
use shorty.Resolver.{resolve, is_path_byte}
use shorty.Resolver.Paths.{resolve-eq-get}
use shorty.Shortener.{Service, ParsedUrl}
use shorty.Shortener.Shortening.{IsShortened}
use shorty.EndToEnd.Deletion.{is_owner}

pub path_bytes_of_alphanumeric :
    (s : Str) → all is_alphanumeric s ≡ true → all is_path_byte s ≡ true
path_bytes_of_alphanumeric [] h = refl
path_bytes_of_alphanumeric (c ∷ s) h = ground (arith, path_bytes_of_alphanumeric s)

module _ (new_v4 : ℕ → Result Str) (intn : ℕ → ℕ → ℕ) (svc : Service)
    (parse : Str → Result ParsedUrl) (range : IsIntn intn) {user : User} {orig_url short : Str}
    {after : Memory}
    (i : IsShortened (memory_storage new_v4) intn svc parse user orig_url short after) where
  pub path_bytes : all is_path_byte i.path ≡ true
  path_bytes = rw i.stored.drawn (
      path_bytes_of_alphanumeric (rand_string intn svc.path_length i.stored.draws).0
        (rand_string_lem intn range svc.path_length i.stored.draws).1)

  pub resolve_path : (resolve get (b'/' ∷ i.path) after).0 ≡ returns (ok i.parsed.text)
  resolve_path =
      let got = get-store new_v4 _ false i.stored.before i.path i.stored.succeeded in
      rw (resolve-eq-get get i.path _ path_bytes, i.stored.result, got, str_eq_refl i.path) refl

  pub owner_path : is_owner user.id (lookup i.path after.db) ≡ true
  owner_path =
      let (v, stored, owned) = owner-store new_v4 _ false i.stored.before i.stored.succeeded in
      rw (i.stored.result, stored, owned) (str_eq_refl user.id)
