-- ===== src/Shortener.antt =====
-- internal/services/shortener (service.go, batch.go, config.go). The storage is any `Storage S`; the
-- logger is left out. `parse` is net/url's Parse followed by the two uses of its result, Scheme and
-- String; `intn` is math/rand's Intn; `now` is the clock.
pub mod Retries
mod Tests
pub mod Shortening
pub mod Queue
pub mod Deletion
pub mod Batching
use shorty.Base.{
  Str, str, ℕ, zero, suc, ◌+◌, false, not, ◌&&◌, Option, none, some, List, [], ◌∷◌, ◌++◌, map,
  str_eq, if◌then◌else◌,
}
use shorty.Errors.{
  Err, Result, ok, err, message, wrap, join, is, model_err, conflict, already_exists, shortener_err,
  invalid_url, unsupported_url_scheme, storage_failed, unauthorized, delete_error, empty_batch,
}
use shorty.Model.{Url, User, is_new, Storage}
use shorty.Generators.{rand_string}
use shorty.Buffer.{Flusher, FlusherConfig, new_flusher, push, do_flush}

pub record Service : Type 0 where
  pub served_scheme : Str
  pub redirect_scheme : Str
  pub host : Str
  pub path_length : ℕ

pub record ParsedUrl : Type 0 where
  pub scheme : Str
  pub text : Str

pub record BatchUrl : Type 0 where
  pub id : Str
  pub url : Str

pub record BatchShortened : Type 0 where
  pub id : Str
  pub short : Str

-- What the calls of the service change: the storage, the queue of deletions, and the number of draws
-- from the random generator.
pub record World (S : Type 0) : Type 0 where
  pub store : S
  pub flusher : Flusher Url
  pub draws : ℕ

abbrev pub flusher_config : FlusherConfig
flusher_config = record { flush_size = 100; alloc_size = 200 }

abbrev pub default_store_retries : ℕ
default_store_retries = 3

-- New: the queue of the service.
abbrev new_world : {S : Type 0} → S → World S
new_world s = record { store = s; flusher = new_flusher flusher_config; draws = 0 }

unfoldable pub get_served_url : Service → Str → Str
get_served_url svc short_path =
    svc.served_scheme ++ (str "://" ++ (svc.host ++ (str "/" ++ short_path)))

-- fmt.Errorf with %w, also at a nil error.
abbrev pub wrap_last : Option Err → Err
wrap_last none = message (str "cannot store url: %!w(<nil>)")
wrap_last (some e) = wrap (str "cannot store url") e

abbrev pub new_url : Str → Str → Str → Url
new_url short orig user_id = record { short = short; orig = orig; user_id = user_id; ts = 0 }

-- What a round of the loop of storeURL does with the storage's answer; `again` is the later rounds.
unfoldable pub store_answer :
    {S : Type 0}
    → Str
    → (Str × Option Err) × World S
    → (Str × Option Err) × World S
    → (Str × Option Err) × World S
store_answer path ((stored, none), w) again = ((path, none), w)
store_answer path ((stored, some e), w) again =
    if is e (model_err conflict)
    then ((stored, some e), w)
    else if is e (model_err already_exists)
    then again
    else ((path, some e), w)

-- The end of Shorten; errors.Is gets its arguments in the order of the source.
unfoldable pub shorten_stored :
    {S : Type 0} → Service → (Str × Option Err) × World S → (Str × Option Err) × World S
shorten_stored svc ((short_path, none), w) = ((get_served_url svc short_path, none), w)
shorten_stored svc ((short_path, some e), w) =
    if not (is (model_err conflict) e)
    then ((str "", some (join (shortener_err storage_failed) e)), w)
    else ((get_served_url svc short_path, some e), w)

module _ {S : Type 0} (st : Storage S) (intn : ℕ → ℕ → ℕ) (svc : Service) where
  -- Store under a newly drawn path.
  unfoldable pub store_drawn : Str → Str → World S → Str × ((Str × Option Err) × World S)
  store_drawn user_id u w =
      let (path, draws) = rand_string intn svc.path_length w.draws in
      let (answer, s) = st.store (new_url path u user_id) false w.store in
      (path, (answer, record w { store = s; draws = draws }))

  -- The loop of storeURL, with the rounds that are left, and `path` and `err` as the round before
  -- left them.
  unfoldable pub store_tries :
      ℕ → Str → Str → Str → Option Err → World S → (Str × Option Err) × World S
  store_tries zero user_id u path last w = ((path, some (wrap_last last)), w)
  store_tries (suc n) user_id u path last w =
      let (path', answer) = store_drawn user_id u w in
      store_answer path' answer (store_tries n user_id u path' answer.0.1 answer.1)

  unfoldable pub store_url : Str → Str → World S → (Str × Option Err) × World S
  store_url user_id u w = store_tries default_store_retries user_id u [] none w

  unfoldable pub shorten_parsed : User → Result ParsedUrl → World S → (Str × Option Err) × World S
  shorten_parsed user (err e) w = ((str "", some (join (shortener_err invalid_url) e)), w)
  shorten_parsed user (ok u) w =
      if not (str_eq svc.redirect_scheme (str "")) && not (str_eq u.scheme svc.redirect_scheme)
      then ((str "", some (shortener_err unsupported_url_scheme)), w)
      else shorten_stored svc (store_url user.id u.text w)

  unfoldable pub shorten :
      (Str → Result ParsedUrl) → User → Str → World S → (Str × Option Err) × World S
  shorten parse user orig_url w = shorten_parsed user (parse orig_url) w

  -- The first loop of ShortenBatch.
  unfoldable pub draw_urls : Str → List BatchUrl → ℕ → List Url × ℕ
  draw_urls user_id [] draws = ([], draws)
  draw_urls user_id (b ∷ batch) draws =
      let (path, draws') = rand_string intn svc.path_length draws in
      let (urls, draws'') = draw_urls user_id batch draws' in
      (new_url path b.url user_id ∷ urls, draws'')

  -- The second loop of ShortenBatch.
  unfoldable pub shortened : List BatchUrl → List Url → List BatchShortened
  shortened [] urls = []
  shortened (b ∷ batch) [] = []
  shortened (b ∷ batch) (url ∷ urls) =
      record { id = b.id; short = get_served_url svc url.short } ∷ shortened batch urls

  unfoldable pub batch_stored :
      List BatchUrl → List Url → World S → Option Err × S → Result (List BatchShortened) × World S
  batch_stored batch urls w (some e, s) =
      (err (join (shortener_err storage_failed) e), record w { store = s })
  batch_stored batch urls w (none, s) = (ok (shortened batch urls), record w { store = s })

  unfoldable pub shorten_batch :
      User → List BatchUrl → World S → Result (List BatchShortened) × World S
  shorten_batch u batch w =
      let (urls, draws) = draw_urls u.id batch w.draws in
      batch_stored batch urls (record w { draws = draws }) (st.store_batch urls w.store)

  -- The loop of GetAll.
  abbrev serve_url : Url → Url
  serve_url url = record url { short = get_served_url svc url.short }

  abbrev listed_urls : World S → Result (List Url) × S → Result (List Url) × World S
  listed_urls w (err e, s) = (err (join (shortener_err storage_failed) e), record w { store = s })
  listed_urls w (ok urls, s) = (ok (map serve_url urls), record w { store = s })

  unfoldable pub get_all : User → World S → Result (List Url) × World S
  get_all u w =
      if is_new u
      then (err (shortener_err unauthorized), w)
      else listed_urls w (st.list_user_urls u.id w.store)

module _ {S : Type 0} (st : Storage S) where
  -- deleteURLs, which the queue calls: errors are logged only.
  pub delete_urls : List Url → S → S
  delete_urls urls s = (st.delete_user_urls urls s).1

  pub delete_flushed : World S → Option (List Url) × Flusher Url → World S
  delete_flushed w (none, f) = record w { flusher = f }
  delete_flushed w (some urls, f) = record w { flusher = f; store = delete_urls urls w.store }

  -- A round of the queue's loop with this flush function.
  pub flush_round : World S → World S
  flush_round w = delete_flushed w (do_flush w.flusher)

abbrev pub delete_request : Str → ℕ → Str → Url
delete_request user_id ts short = record {
  short = short;
  orig = str "";
  user_id = user_id;
  ts = ts;
}

pub push_answer : Option Err × Flusher Url → Option Err × Flusher Url → Option Err × Flusher Url
push_answer (none, f) later = later
push_answer (some e, f) later = (some (join (shortener_err delete_error) e), f)

-- The loop of DeleteBatch.
pub push_shorts : Str → ℕ → List Str → Flusher Url → Option Err × Flusher Url
push_shorts user_id ts [] f = (none, f)
push_shorts user_id ts (short ∷ shorts) f =
    let pushed = push (delete_request user_id ts short) f in
    push_answer pushed (push_shorts user_id ts shorts pushed.1)

pub delete_batch : {S : Type 0} → ℕ → User → List Str → World S → Option Err × World S
delete_batch now u [] w =
    if is_new u
    then (some (shortener_err unauthorized), w)
    else (some (shortener_err empty_batch), w)
delete_batch now u (short ∷ shorts) w =
    let (e, f) = push_shorts u.id now (short ∷ shorts) w.flusher in
    if is_new u then (some (shortener_err unauthorized), w) else (e, record w { flusher = f })
