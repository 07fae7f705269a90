-- ===== src/Shortener/Tests.antt =====
-- A service over a storage in which every path is taken.
use shorty.Base.{Str, str, ℕ, suc, ◌+◌, ◌*◌, ◌≡◌, refl, false, Option, none, some, [], str_eq}
use shorty.Errors.{
  Err, Result, ok, err, wrap, join, model_err, already_exists, not_found, shortener_err,
  storage_failed,
}
use shorty.Model.{User, Storage}
use shorty.Buffer.{new_flusher}
use shorty.Generators.Tests.{counting, counting-IsIntn}
use shorty.Shortener.{Service, ParsedUrl, World, shorten, flusher_config}
use shorty.Shortener.Shortening.{shorten_gives_up}

-- The state of the storage is the number of calls of Store; the calls from the `taken`-th on succeed.
abbrev taken_storage : (ℕ → Option Err) → Storage ℕ
taken_storage answer = record {
  get = λ k n. (err (model_err not_found), n);
  store = λ url overwrite n. ((str "", answer n), suc n);
  store_batch = λ urls n. (none, n);
  list_user_urls = λ u n. (ok [], n);
  delete_user_urls = λ urls n. (ok 0, n);
  ping = λ n. (none, n);
  stats = λ n. (err (model_err not_found), n);
}

abbrev always_taken : ℕ → Option Err
always_taken n = some (model_err already_exists)

abbrev service : Service
service = record {
  served_scheme = str "http";
  redirect_scheme = str "";
  host = str "localhost:8080";
  path_length = 2;
}

abbrev parse : Str → Result ParsedUrl
parse s = ok (record { scheme = str "ftp"; text = s })

abbrev user : User
user = record { id = str "u"; new = false }

abbrev world : World ℕ
world = record { store = 0; flusher = new_flusher flusher_config; draws = 0 }

shorten_gives_up_example :
    ((shorten (taken_storage always_taken) counting service parse user (str "ftp://x") world).0 ≡ (
      str "",
      some (
          join
            (shortener_err storage_failed)
            (wrap (str "cannot store url") (model_err already_exists))),
    ))
    × ((shorten
          (taken_storage always_taken)
          counting
          service
          parse
          user
          (str "ftp://x")
          world).1.draws
        ≡ 3 * 2 + 0)
unfolding str_eq
shorten_gives_up_example =
    shorten_gives_up (taken_storage always_taken) counting service parse user (str "ftp://x")
      (record { scheme = str "ftp"; text = str "ftp://x" }) (model_err already_exists) world
      counting-IsIntn refl refl (λ url n. refl) refl refl
