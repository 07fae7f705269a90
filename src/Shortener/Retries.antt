-- ===== src/Shortener/Retries.antt =====
-- The loop of storeURL (internal/services/shortener/service.go) over any storage.
use shorty.Base.{
  Str, ℕ, zero, suc, ◌+◌, ◌*◌, ◌≡◌, refl, ap, ◌∙◌, true, false, Option, none, some, [], arith,
  Bool-cases, if_both, inl, inr,
}
use shorty.Errors.{Err, is, model_err, conflict, already_exists}
use shorty.Model.{Url, Storage}
use shorty.Generators.{rand_string}
use shorty.Generators.Alphabet.{IsIntn, rand_string_lem}
use shorty.Shortener.{
  Service, World, store_answer, store_drawn, store_tries, store_url, new_url, wrap_last,
  default_store_retries,
}

module _ {S : Type 0} (st : Storage S) (intn : ℕ → ℕ → ℕ) (svc : Service) where
  -- A call of Store that returned no error, under a path that RandString returned, and the state
  -- after it.
  pub record IsStored (user_id u path : Str) (after : S) : Type 0 where
    pub before : S
    pub draws : ℕ
    pub drawn : path ≡ (rand_string intn svc.path_length draws).0
    pub succeeded : (st.store (new_url path u user_id) false before).0.1 ≡ none
    pub result : after ≡ (st.store (new_url path u user_id) false before).1

  module _ (user_id u : Str) where
    store_answer-IsStored :
        (path : Str) (answer again : (Str × Option Err) × World S)
        → (answer.0.1 ≡ none → IsStored user_id u path answer.1.store)
        → (again.0.1 ≡ none → IsStored user_id u again.0.0 again.1.store)
        → (store_answer path answer again).0.1 ≡ none
        → IsStored user_id u
            (store_answer path answer again).0.0
            (store_answer path answer again).1.store
    unfolding store_answer
    store_answer-IsStored path ((stored, none), w) again p q h = p refl
    store_answer-IsStored path ((stored, some e), w) again p q h =
        elim (Bool-cases (is e (model_err conflict))) [
          | inl c ↦ cc (rw c at h)
          | inr c ↦ elim (Bool-cases (is e (model_err already_exists))) [
            | inl a ↦ rw (c, a) (q (rw (c, a) at h))
            | inr a ↦ cc (rw (c, a) at h)
          ]
        ]

    store_tries-IsStored :
        (n : ℕ) (path : Str) (last : Option Err) (w : World S)
        → (store_tries st intn svc n user_id u path last w).0.1 ≡ none
        → IsStored user_id u
            (store_tries st intn svc n user_id u path last w).0.0
            (store_tries st intn svc n user_id u path last w).1.store
    unfolding store_tries store_drawn
    store_tries-IsStored zero path last w h = cc
    store_tries-IsStored (suc n) path last w h =
        store_answer-IsStored (store_drawn st intn svc user_id u w).0
          (store_drawn st intn svc user_id u w).1 _
          (λ e. record {
            before = w.store;
            draws = w.draws;
            drawn = refl;
            succeeded = e;
            result = refl;
          })
          (store_tries-IsStored n _ _ (store_drawn st intn svc user_id u w).1.1) h

    pub store_url-IsStored :
        (w : World S)
        → (store_url st intn svc user_id u w).0.1 ≡ none
        → IsStored user_id u
            (store_url st intn svc user_id u w).0.0
            (store_url st intn svc user_id u w).1.store
    unfolding store_url
    store_url-IsStored w h = store_tries-IsStored default_store_retries [] none w h

    -- What every Store without overwriting keeps, storeURL keeps.
    module _ (P : S → Type 0) (keep : (url : Url) (s : S) → P s → P (st.store url false s).1) where
      store_answer-keeps :
          (path : Str) (answer again : (Str × Option Err) × World S)
          → P answer.1.store
          → P again.1.store
          → P (store_answer path answer again).1.store
      unfolding store_answer
      store_answer-keeps path ((stored, none), w) again p q = p
      store_answer-keeps path ((stored, some e), w) again p q =
          if_both (λ (r : (Str × Option Err) × World S). P r.1.store) (is e (model_err conflict)) _
            _ p
            (if_both (λ (r : (Str × Option Err) × World S). P r.1.store)
              (is e (model_err already_exists)) _ _ q p)

      pub store_tries-keeps :
          (n : ℕ) (path : Str) (last : Option Err) (w : World S)
          → P w.store
          → P (store_tries st intn svc n user_id u path last w).1.store
      unfolding store_tries store_drawn
      store_tries-keeps zero path last w p = p
      store_tries-keeps (suc n) path last w p =
          let p' = keep (new_url (store_drawn st intn svc user_id u w).0 u user_id) w.store p in
          store_answer-keeps (store_drawn st intn svc user_id u w).0
            (store_drawn st intn svc user_id u w).1 _ p'
            (store_tries-keeps n _ _ (store_drawn st intn svc user_id u w).1.1 p')

  -- A storage that answers every Store by one error, a collision of the path.
  module _ (e : Err) (collides : (url : Url) (s : S) → (st.store url false s).0.1 ≡ some e)
      (exists_ : is e (model_err already_exists) ≡ true)
      (no_conflict : is e (model_err conflict) ≡ false) (range : IsIntn intn) where
    store_answer_collides :
        (path : Str) (answer again : (Str × Option Err) × World S)
        → answer.0.1 ≡ some e
        → store_answer path answer again ≡ again
    unfolding store_answer
    store_answer_collides path ((stored, o), w) again h = rw h (rw (no_conflict, exists_))

    module _ (user_id u : Str) where
      store_tries_collides :
          (n : ℕ) (path : Str) (last : Option Err) (w : World S)
          → store_tries st intn svc (suc n) user_id u path last w
            ≡ store_tries st intn svc n user_id u
                (store_drawn st intn svc user_id u w).0
                (some e)
                (store_drawn st intn svc user_id u w).1.1
      unfolding store_tries store_drawn
      store_tries_collides n path last w =
          let answered =
            collides (new_url (store_drawn st intn svc user_id u w).0 u user_id) w.store in
          store_answer_collides (store_drawn st intn svc user_id u w).0
            (store_drawn st intn svc user_id u w).1 _ answered
          ∙ ap
              (λ o.
                store_tries st intn svc n user_id u (store_drawn st intn svc user_id u w).0 o
                  (store_drawn st intn svc user_id u w).1.1)
              answered

      draws-store_drawn :
          (w : World S)
          → (store_drawn st intn svc user_id u w).1.1.draws ≡ svc.path_length + w.draws
      unfolding store_drawn
      draws-store_drawn w = (rand_string_lem intn range svc.path_length w.draws).2

      given_up :
          (n : ℕ) (path : Str) (w : World S)
          → ((store_tries st intn svc n user_id u path (some e) w).0.1 ≡ some (wrap_last (some e)))
            × ((store_tries st intn svc n user_id u path (some e) w).1.draws
                ≡ n * svc.path_length + w.draws)
      given_up zero path w = unfold store_tries in (refl, omega arith)
      given_up (suc n) path w =
          let w' = (store_drawn st intn svc user_id u w).1.1 in
          let later = given_up n (store_drawn st intn svc user_id u w).0 w' in
          rw (store_tries_collides n path (some e) w)
            (later.0, omega (arith, later.1, draws-store_drawn w))

      pub store_url_collides :
          (w : World S)
          → ((store_url st intn svc user_id u w).0.1 ≡ some (wrap_last (some e)))
            × ((store_url st intn svc user_id u w).1.draws ≡ 3 * svc.path_length + w.draws)
      unfolding store_url
      store_url_collides w =
          let later =
            given_up 2 (store_drawn st intn svc user_id u w).0
              (store_drawn st intn svc user_id u w).1.1 in
          rw (store_tries_collides 2 [] none w)
            (later.0, omega (arith, later.1, draws-store_drawn w))
