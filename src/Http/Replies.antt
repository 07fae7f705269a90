-- ===== src/Http/Replies.antt =====
-- internal/http/server/handlers.go: what the handlers do with their ResponseWriter once they have the
-- result of a service. Logging is left out.
use shorty.Base.{
  Str, str, ℕ, Bool, true, false, ◌||◌, Option, none, some, List, [], ◌∷◌, if◌then◌else◌,
}
use shorty.Errors.{
  Err, Result, ok, err, is, model_err, not_found, deleted, conflict, resolver_err, invalid_path,
  shortener_err, invalid_url, unsupported_url_scheme, unauthorized, empty_batch, Outcome, returns,
  panics,
}
use shorty.Model.{Url, Stats}
use shorty.Shortener.{BatchShortened}
use shorty.Http.Writer.{Action, set_header, write_header, write}

-- The actions of a handler, and whether it then panics.
pub record Run : Type 0 where
  pub actions : List Action
  pub panicking : Bool

abbrev pub run : List Action → Run
run actions = record { actions = actions; panicking = false }

abbrev pub content_type_json : Str
content_type_json = str "application/json"

abbrev pub content_type_plain : Str
content_type_plain = str "text/plain"

-- http.Status…
abbrev status_ok : ℕ
status_ok = 200

abbrev status_created : ℕ
status_created = 201

abbrev status_accepted : ℕ
status_accepted = 202

abbrev status_no_content : ℕ
status_no_content = 204

abbrev status_temporary_redirect : ℕ
status_temporary_redirect = 307

abbrev pub status_bad_request : ℕ
status_bad_request = 400

abbrev status_unauthorized : ℕ
status_unauthorized = 401

abbrev status_not_found : ℕ
status_not_found = 404

abbrev status_conflict : ℕ
status_conflict = 409

abbrev status_gone : ℕ
status_gone = 410

abbrev status_internal_server_error : ℕ
status_internal_server_error = 500

abbrev pub fail : Run
fail = run (write_header status_internal_server_error ∷ [])

unfoldable pub answer_ping : Option Err → Run
answer_ping (some e) = run (write_header status_internal_server_error ∷ [])
answer_ping none = run (write_header status_ok ∷ [])

-- `err` is assigned again by json.Marshal before it is looked at.
abbrev pub stats_value : Result Stats → Option Stats
stats_value (ok s) = some s
stats_value (err e) = none

abbrev pub write_stats : Result Str → Run
write_stats (err e) = run (write_header status_internal_server_error ∷ [])
write_stats (ok b) = run (write_header status_ok ∷ write b ∷ [])

unfoldable pub resolve_code : Err → ℕ
resolve_code e =
    if is e (resolver_err invalid_path)
    then status_bad_request
    else if is e (model_err not_found)
    then status_not_found
    else if is e (model_err deleted)
    then status_gone
    else status_internal_server_error

unfoldable pub answer_resolve : Outcome (Result Str) → Run
answer_resolve panics = record { actions = []; panicking = true }
answer_resolve (returns (err e)) = run (write_header (resolve_code e) ∷ [])
answer_resolve (returns (ok redirect)) =
    run (set_header (str "Location") redirect ∷ write_header status_temporary_redirect ∷ [])

abbrev write_response : Str → ℕ → Result Str → Run
write_response ct code (err e) = run (write_header status_internal_server_error ∷ [])
write_response ct code (ok b) =
    run (set_header (str "Content-Type") ct ∷ write_header code ∷ write b ∷ [])

-- The switch of Shorten and ShortenPlain on the service's error; errors.Is gets its arguments in the
-- order of the source. `none`: the response is written with this status.
unfoldable pub shorten_code : Option Err → ℕ
shorten_code none = status_created
shorten_code (some e) =
    if is (shortener_err invalid_url) e || is (shortener_err unsupported_url_scheme) e
    then status_bad_request
    else if is (model_err conflict) e
    then status_conflict
    else status_internal_server_error

abbrev is_written : Option Err → Bool
is_written none = true
is_written (some e) = is (model_err conflict) e

unfoldable pub answer_shorten : Str → (Str → Result Str) → Str × Option Err → Run
answer_shorten ct marshal (result, e) =
    if is_written e
    then write_response ct (shorten_code e) (marshal result)
    else run (write_header (shorten_code e) ∷ [])

abbrev get_all_code : Err → ℕ
get_all_code e =
    if is e (model_err not_found)
    then status_no_content
    else if is e (shortener_err unauthorized)
    then status_unauthorized
    else status_internal_server_error

unfoldable pub answer_get_all : (List Url → Result Str) → Result (List Url) → Run
answer_get_all marshal (err e) = run (write_header (get_all_code e) ∷ [])
answer_get_all marshal (ok urls) = write_response content_type_json status_ok (marshal urls)

unfoldable pub answer_shorten_batch :
    (List BatchShortened → Result Str) → Result (List BatchShortened) → Run
answer_shorten_batch marshal (err e) = run (write_header status_internal_server_error ∷ [])
answer_shorten_batch marshal (ok shorts) =
    write_response content_type_json status_created (marshal shorts)

abbrev delete_batch_code : Err → ℕ
delete_batch_code e =
    if is e (shortener_err unauthorized)
    then status_unauthorized
    else if is e (shortener_err empty_batch)
    then status_bad_request
    else status_internal_server_error

-- There is no return after the status of an error.
unfoldable pub answer_delete_batch : Option Err → Run
answer_delete_batch (some e) =
    run (write_header (delete_batch_code e) ∷ write_header status_accepted ∷ [])
answer_delete_batch none = run (write_header status_accepted ∷ [])

abbrev pub bad_request : Run
bad_request = run (write_header status_bad_request ∷ [])
