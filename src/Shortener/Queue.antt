-- ===== src/Shortener/Queue.antt =====
-- Shorten and the deletion queue (internal/services/shortener/service.go).
use shorty.Base.{Str, ℕ, zero, suc, ◌≡◌, refl, Option, none, some, [], if_both}
use shorty.Errors.{Err, Result, ok, err, is, model_err, conflict, already_exists}
use shorty.Model.{Url, User, Storage}
use shorty.Buffer.{Flusher}
use shorty.Shortener.{
  Service, World, ParsedUrl, store_answer, store_drawn, store_tries, store_url,
  default_store_retries, shorten_parsed, shorten, shorten_stored,
}
use shorty.Shortener.Shortening.{world-shorten_stored}

module _ {S : Type 0} (st : Storage S) (intn : ℕ → ℕ → ℕ) (svc : Service) (f : Flusher Url) where
  store_answer-flusher :
      (path : Str) (answer again : (Str × Option Err) × World S)
      → answer.1.flusher ≡ f
      → again.1.flusher ≡ f
      → (store_answer path answer again).1.flusher ≡ f
  unfolding store_answer
  store_answer-flusher path ((stored, none), w) again p q = p
  store_answer-flusher path ((stored, some e), w) again p q =
      if_both (λ (r : (Str × Option Err) × World S). r.1.flusher ≡ f) (is e (model_err conflict)) _
        _ p
        (if_both (λ (r : (Str × Option Err) × World S). r.1.flusher ≡ f)
          (is e (model_err already_exists)) _ _ q p)

  store_tries-flusher :
      (n : ℕ) (user_id u path : Str) (last : Option Err) (w : World S)
      → w.flusher ≡ f
      → (store_tries st intn svc n user_id u path last w).1.flusher ≡ f
  unfolding store_tries store_drawn
  store_tries-flusher zero user_id u path last w h = h
  store_tries-flusher (suc n) user_id u path last w h =
      store_answer-flusher (store_drawn st intn svc user_id u w).0
        (store_drawn st intn svc user_id u w).1 _ h
        (store_tries-flusher n user_id u _ _ (store_drawn st intn svc user_id u w).1.1 h)

  shorten_parsed-flusher :
      (user : User) (r : Result ParsedUrl) (w : World S)
      → w.flusher ≡ f
      → (shorten_parsed st intn svc user r w).1.flusher ≡ f
  unfolding shorten_parsed store_url
  shorten_parsed-flusher user (err e) w h = h
  shorten_parsed-flusher user (ok u) w h =
      if_both (λ (r : (Str × Option Err) × World S). r.1.flusher ≡ f) _ _
        (shorten_stored svc (store_url st intn svc user.id u.text w)) h
        (rw (world-shorten_stored svc (store_url st intn svc user.id u.text w))
          (store_tries-flusher default_store_retries user.id u.text [] none w h))

-- Shorten leaves the queue as it is.
pub flusher-shorten :
    {S : Type 0} (st : Storage S) (intn : ℕ → ℕ → ℕ) (svc : Service)
    (parse : Str → Result ParsedUrl) (user : User) (orig_url : Str) (w : World S)
    → (shorten st intn svc parse user orig_url w).1.flusher ≡ w.flusher
unfolding shorten
flusher-shorten st intn svc parse user orig_url w =
    shorten_parsed-flusher st intn svc w.flusher user (parse orig_url) w refl
