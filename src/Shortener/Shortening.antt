-- ===== src/Shortener/Shortening.antt =====
-- Shorten (internal/services/shortener/service.go) over any storage.
use shorty.Base.{
  Str, str, ℕ, ◌+◌, ◌*◌, ◌≡◌, refl, ap, Bool, true, false, Option, none, some, [], arith,
  Bool-cases, if_both, str_eq, ◌||◌, sym, inl, inr,
}
use shorty.Errors.{
  Err, Result, ok, err, wrap, join, is, model_err, conflict, already_exists, shortener_err,
  storage_failed, unsupported_url_scheme,
}
use shorty.Model.{Url, User, Storage}
use shorty.Generators.Alphabet.{IsIntn}
use shorty.Shortener.{
  Service, World, ParsedUrl, store_url, shorten_stored, shorten_parsed, shorten, wrap_last,
  get_served_url,
}
use shorty.Shortener.Retries.{IsStored, store_url-IsStored, store_url_collides, store_tries-keeps}

-- The scheme passes the test on the configured one.
abbrev pub is_accepted : Service → ParsedUrl → Bool
is_accepted svc u = str_eq svc.redirect_scheme (str "") || str_eq u.scheme svc.redirect_scheme

module _ {S : Type 0} (svc : Service) where
  shorten_stored-failed :
      (r : (Str × Option Err) × World S) (e : Err)
      → r.0.1 ≡ some e
      → is (model_err conflict) e ≡ false
      → shorten_stored svc r ≡ ((str "", some (join (shortener_err storage_failed) e)), r.1)
  unfolding shorten_stored
  shorten_stored-failed ((path, o), w) e h c = rw h (rw c)

  pub world-shorten_stored : (r : (Str × Option Err) × World S) → (shorten_stored svc r).1 ≡ r.1
  unfolding shorten_stored
  world-shorten_stored ((path, none), w) = refl
  world-shorten_stored ((path, some e), w) = ground arith

module _ {S : Type 0} (st : Storage S) (intn : ℕ → ℕ → ℕ) (svc : Service)
    (parse : Str → Result ParsedUrl) where
  pub shorten_accepted :
      (user : User) (u : ParsedUrl) (w : World S)
      → is_accepted svc u ≡ true
      → shorten_parsed st intn svc user (ok u) w
        ≡ shorten_stored svc (store_url st intn svc user.id u.text w)
  unfolding shorten_parsed
  shorten_accepted user u w h = ground arith

  shorten_refused :
      (user : User) (u : ParsedUrl) (w : World S)
      → is_accepted svc u ≡ false
      → shorten_parsed st intn svc user (ok u) w
        ≡ ((str "", some (shortener_err unsupported_url_scheme)), w)
  unfolding shorten_parsed
  shorten_refused user u w h = ground arith

  -- Let Intn keep its bound, the URL parse with an accepted scheme, and every Store fail with the
  -- same "already exists", which is no conflict. Then Shorten draws exactly three paths, and
  -- returns a storage error that wraps the last one.
  pub shorten_gives_up :
      (user : User) (orig_url : Str) (u : ParsedUrl) (e : Err) (w : World S)
      → IsIntn intn
      → parse orig_url ≡ ok u
      → is_accepted svc u ≡ true
      → ((url : Url) (s : S) → (st.store url false s).0.1 ≡ some e)
      → is e (model_err already_exists) ≡ true
      → is e (model_err conflict) ≡ false
      → ((shorten st intn svc parse user orig_url w).0
          ≡ (str "", some (join (shortener_err storage_failed) (wrap (str "cannot store url") e))))
        × ((shorten st intn svc parse user orig_url w).1.draws ≡ 3 * svc.path_length + w.draws)
  unfolding shorten
  shorten_gives_up user orig_url u e w range parsed fits collides exists_ no_conflict =
      let (failed, drawn) =
        store_url_collides st intn svc e collides exists_ no_conflict range user.id u.text w in
      rw (parsed, shorten_accepted user u w fits)
        (ground (
          arith,
          failed,
          drawn,
          shorten_stored-failed svc (store_url st intn svc user.id u.text w) (wrap_last (some e))
              failed refl,
        ))

  -- What Shorten has done where it returns no error.
  pub record IsShortened (user : User) (orig_url short : Str) (after : S) : Type 0 where
    pub parsed : ParsedUrl
    pub parses : parse orig_url ≡ ok parsed
    pub accepted : is_accepted svc parsed ≡ true
    pub path : Str
    pub served : short ≡ get_served_url svc path
    pub stored : IsStored st intn svc user.id parsed.text path after

  shorten_stored-IsShortened :
      (user : User) (orig_url : Str) (u : ParsedUrl) (r : (Str × Option Err) × World S)
      (short : Str)
      → parse orig_url ≡ ok u
      → is_accepted svc u ≡ true
      → (r.0.1 ≡ none → IsStored st intn svc user.id u.text r.0.0 r.1.store)
      → (shorten_stored svc r).0 ≡ (short, none)
      → IsShortened user orig_url short (shorten_stored svc r).1.store
  unfolding shorten_stored
  shorten_stored-IsShortened user orig_url u ((path, none), w) short p a i h = record {
    parsed = u;
    parses = p;
    accepted = a;
    path = path;
    served = ap (λ (x : Str × Option Err). x.0) (sym h);
    stored = i refl;
  }
  shorten_stored-IsShortened user orig_url u ((path, some e), w) short p a i h =
      elim (Bool-cases (is (model_err conflict) e)) [
        | inl c ↦ cc (rw c at h)
        | inr c ↦ cc (rw c at h)
      ]

  -- A Shorten that returned no error has parsed the URL, accepted its scheme, and stored its text for
  -- the user under a path that RandString returned; the result is the served URL of this path.
  pub shorten-IsShortened :
      (user : User) (orig_url short : Str) (w : World S)
      → (shorten st intn svc parse user orig_url w).0 ≡ (short, none)
      → IsShortened user orig_url short (shorten st intn svc parse user orig_url w).1.store
  unfolding shorten
  shorten-IsShortened user orig_url short w h = go (parse orig_url) refl h
    where
      go :
          (r : Result ParsedUrl)
          → parse orig_url ≡ r
          → (shorten_parsed st intn svc user r w).0 ≡ (short, none)
          → IsShortened user orig_url short (shorten_parsed st intn svc user r w).1.store
      go (err e) p h = unfold shorten_parsed in cc h
      go (ok u) p h = elim (Bool-cases (is_accepted svc u)) [
        | inl yes_ ↦ rw (shorten_accepted user u w yes_) (
            shorten_stored-IsShortened user orig_url u (store_url st intn svc user.id u.text w)
              short p yes_ (store_url-IsStored st intn svc user.id u.text w)
              (rw (shorten_accepted user u w yes_) at h))
        | inr no_ ↦ cc (shorten_refused user u w no_, h)
      ]

  shorten_parsed-keeps :
      (P : S → Type 0)
      → ((url : Url) (s : S) → P s → P (st.store url false s).1)
      → (user : User) (r : Result ParsedUrl) (w : World S) → P w.store
      → P (shorten_parsed st intn svc user r w).1.store
  unfolding shorten_parsed store_url
  shorten_parsed-keeps P keep user (err e) w p = p
  shorten_parsed-keeps P keep user (ok u) w p =
      if_both (λ (r : (Str × Option Err) × World S). P r.1.store) _ _
        (shorten_stored svc (store_url st intn svc user.id u.text w)) p
        (rw (world-shorten_stored svc (store_url st intn svc user.id u.text w))
          (store_tries-keeps st intn svc user.id u.text P keep 3 [] none w p))

  -- What every Store without overwriting keeps, Shorten keeps, whatever it returns.
  pub shorten-keeps :
      (P : S → Type 0)
      → ((url : Url) (s : S) → P s → P (st.store url false s).1)
      → (user : User) (orig_url : Str) (w : World S) → P w.store
      → P (shorten st intn svc parse user orig_url w).1.store
  unfolding shorten
  shorten-keeps P keep user orig_url w p = shorten_parsed-keeps P keep user (parse orig_url) w p
