-- ===== src/Links/Clients.antt =====
-- Shorten and Resolve over any storage of links (internal/services/shortener/service.go,
-- internal/services/resolver/resolver.go).
use shorty.Base.{
  Str, ℕ, ◌≡◌, refl, ap, ◌∙◌, true, false, none, some, ◌∷◌, all, length, str_eq, str_eq_iff,
  str_eq_refl, Option-cases, Bool-cases, inl, inr,
}
use shorty.Errors.{Result, ok, returns}
use shorty.Model.{Url, User, Storage}
use shorty.Generators.Alphabet.{IsIntn, is_alphanumeric, rand_string_lem}
use shorty.Resolver.{resolve, is_path_byte}
use shorty.Resolver.Paths.{resolve-eq-get}
use shorty.Shortener.{Service, ParsedUrl, World, shorten, new_url, get_served_url}
use shorty.Shortener.Shortening.{shorten-IsShortened, shorten-keeps}
use shorty.EndToEnd.Ownership.{path_bytes_of_alphanumeric}
use shorty.Links.{live, View, is_live_entry, LinkStoreFor, LinkStore}

module _ {S : Type 0} (Fits : Url → Type 0) (st : Storage S) (view : View S)
    (links : LinkStoreFor Fits st view) (intn : ℕ → ℕ → ℕ) (svc : Service)
    (parse : Str → Result ParsedUrl) where
  -- Over any storage of links, where Intn keeps its bound, and where the parsed URL fits into the
  -- storage under every path of the configured length, of letters and digits: a link that Shorten
  -- returned without error is the served URL of a path of the configured length, which resolves to
  -- the text of the parsed URL.
  pub shorten_link :
      (user : User) (orig_url short : Str) (w : World S)
      → IsIntn intn
      → ((u : ParsedUrl) (path : Str)
          → parse orig_url ≡ ok u
          → length path ≡ svc.path_length
          → all is_alphanumeric path ≡ true
          → Fits (new_url path u.text user.id))
      → (shorten st intn svc parse user orig_url w).0 ≡ (short, none)
      → (u : ParsedUrl) × (path : Str) × (parse orig_url ≡ ok u)
        × (short ≡ get_served_url svc path)
        × (length path ≡ svc.path_length)
        × ((resolve st.get (b'/' ∷ path) (shorten st intn svc parse user orig_url w).1.store).0
            ≡ returns (ok u.text))
  shorten_link user orig_url short w range fits h =
      let i = shorten-IsShortened st intn svc parse user orig_url short w h in
      let drawn = rand_string_lem intn range svc.path_length i.stored.draws in
      let long : length i.path ≡ svc.path_length = rw i.stored.drawn drawn.0 in
      let letters : all is_alphanumeric i.path ≡ true = rw i.stored.drawn (drawn.1) in
      let bytes : all is_path_byte i.path ≡ true = path_bytes_of_alphanumeric i.path letters in
      let stored =
        links.store_done _ i.stored.before (fits i.parsed i.path i.parses long letters)
          i.stored.succeeded i.path in
      let found : view (shorten st intn svc parse user orig_url w).1.store i.path
          ≡ some (live i.parsed.text) =
        ap (λ s. view s i.path) i.stored.result ∙ stored ∙ rw (str_eq_refl i.path) refl in
      (
        i.parsed,
        i.path,
        i.parses,
        i.served,
        long,
        rw (resolve-eq-get st.get i.path _ bytes, links.get_answer i.path _ letters, found) refl,
      )

module _ {S : Type 0} (st : Storage S) (view : View S) (links : LinkStore st view) where
  -- A Store without overwriting leaves every live entry, whatever it returns.
  store_keeps_live :
      (k v : Str) (url : Url) (s : S)
      → view s k ≡ some (live v)
      → view (st.store url false s).1 k ≡ some (live v)
  store_keeps_live k v url s h = elim (Option-cases (st.store url false s).0.1) [
    | inl done ↦ elim (Bool-cases (str_eq url.short k)) [
      | inl same ↦
          let at : url.short ≡ k = (str_eq_iff url.short k).0 same in
          let free = links.store_free url s tt done in
          cc (free, ap (λ j. is_live_entry (view s j)) at, ap is_live_entry h)
      | inr other ↦ links.store_done url s tt done k ∙ rw other h
    ]
    | inr (e, failed) ↦ links.store_failed url s e failed k ∙ h
  ]

  module _ (intn : ℕ → ℕ → ℕ) (svc : Service) (parse : Str → Result ParsedUrl) where
    -- Over any storage of links, whatever Shorten returns, and whatever it draws: a link that was
    -- live before is live after it, with the same URL.
    pub links_kept :
        (user : User) (orig_url k v : Str) (w : World S)
        → view w.store k ≡ some (live v)
        → view (shorten st intn svc parse user orig_url w).1.store k ≡ some (live v)
    links_kept user orig_url k v w was =
        shorten-keeps st intn svc parse (λ s. view s k ≡ some (live v))
          (λ url s. store_keeps_live k v url s) user orig_url w was
