-- ===== src/EndToEnd/Links.antt =====
-- Shorten, then Resolve (internal/services/shortener/service.go, internal/services/resolver,
-- internal/storage/memory/simple.go).
use shorty.Base.{Str, ℕ, ◌≡◌, none, ◌∷◌, length}
use shorty.Errors.{Result, ok, returns}
use shorty.Model.{User}
use shorty.Memory.{Memory, memory_storage, get}
use shorty.Memory.Storing.{get-store_kept}
use shorty.Generators.Alphabet.{IsIntn, rand_string_lem}
use shorty.Resolver.{resolve}
use shorty.Shortener.{Service, ParsedUrl, World, shorten, get_served_url}
use shorty.EndToEnd.Ownership.{resolve_path}
use shorty.Shortener.Shortening.{shorten-IsShortened, shorten-keeps}

module _ (new_v4 : ℕ → Result Str) where
  module _ (intn : ℕ → ℕ → ℕ) (svc : Service) (parse : Str → Result ParsedUrl) where
    -- Where Intn keeps its bound: a link that Shorten returned without error is the served URL of
    -- a path of the configured length, and this path resolves to the text of the parsed URL.
    pub resolve-shorten :
        (user : User) (orig_url short : Str) (w : World Memory)
        → IsIntn intn
        → (shorten (memory_storage new_v4) intn svc parse user orig_url w).0 ≡ (short, none)
        → (u : ParsedUrl) × (path : Str) × (parse orig_url ≡ ok u)
          × (short ≡ get_served_url svc path)
          × (length path ≡ svc.path_length)
          × ((resolve get
                (b'/' ∷ path)
                (shorten (memory_storage new_v4) intn svc parse user orig_url w).1.store).0
              ≡ returns (ok u.text))
    resolve-shorten user orig_url short w range h =
        let i =
          shorten-IsShortened (memory_storage new_v4) intn svc parse user orig_url short w h in
        (
          i.parsed,
          i.path,
          i.parses,
          i.served,
          rw i.stored.drawn (rand_string_lem intn range svc.path_length i.stored.draws).0,
          resolve_path new_v4 intn svc parse range i,
        )

    -- Whatever Shorten returns, every key that found a URL before it finds the same URL after it.
    pub get-shorten :
        (user : User) (orig_url k v : Str) (w : World Memory)
        → (get k w.store).0 ≡ ok v
        → (get k (shorten (memory_storage new_v4) intn svc parse user orig_url w).1.store).0 ≡ ok v
    get-shorten user orig_url k v w h =
        shorten-keeps (memory_storage new_v4) intn svc parse (λ s. (get k s).0 ≡ ok v)
          (λ url s. get-store_kept new_v4 k v url s) user orig_url w h
