-- ===== src/Users.antt =====
-- NewFromUserID of internal/user/user.go, and the users of New. The decoder of base64 and that of
-- UUIDs are parameters.
mod Tests
use shorty.Base.{Str, str, ℕ, ◌≡◌, refl, ap, Option, none, some}
use shorty.Errors.{Err, Result, ok, err, wrap}
use shorty.Model.{User, new_with_id}
use shorty.Auth.{Library, new_user, new_user_of}

abbrev id_of : Result User → Str
id_of (ok u) = u.id
id_of (err e) = str ""

module _ (decode_string : Str → Result Str) (from_bytes : Str → Option Err) where
  abbrev uuid_checked : Str → Option Err → Result User
  uuid_checked user_id (some e) = err (wrap (str "cannot uuidv4-decode user id") e)
  uuid_checked user_id none = ok (new_with_id user_id)

  abbrev decoded_user : Str → Result Str → Result User
  decoded_user user_id (err e) = err (wrap (str "cannot base64-decode user id") e)
  decoded_user user_id (ok b) = uuid_checked user_id (from_bytes b)

  -- NewFromUserID
  pub new_from_user_id : Str → Result User
  new_from_user_id user_id = decoded_user user_id (decode_string user_id)

  made_of_bytes :
      (lib : Library) (n : ℕ) (r : Result Str) (u : User)
      → ((bytes : Str)
          → r ≡ ok bytes
          → (decode_string (lib.raw_url_encoding bytes) ≡ ok bytes) × (from_bytes bytes ≡ none))
      → new_user_of lib r ≡ ok u
      → new_from_user_id u.id ≡ ok (new_with_id u.id)
  unfolding new_from_user_id
  made_of_bytes lib n (err e) u decodes h = cc h
  made_of_bytes lib n (ok bytes) u decodes h =
      let (decoded, valid) = decodes bytes refl in
      let same : lib.raw_url_encoding bytes ≡ u.id = ap id_of h in
      rw (← same) (rw (decoded, valid) refl)

  -- A user that New has made, with a UUID whose encoding decodes, is known again by its id, no longer
  -- as a new one.
  pub new_from_user_id-new_user :
      (lib : Library) (n : ℕ) (u : User)
      → ((bytes : Str)
          → lib.new_v4 n ≡ ok bytes
          → (decode_string (lib.raw_url_encoding bytes) ≡ ok bytes) × (from_bytes bytes ≡ none))
      → (new_user lib n).0 ≡ ok u
      → new_from_user_id u.id ≡ ok (new_with_id u.id)
  unfolding new_user
  new_from_user_id-new_user lib n u decodes h = made_of_bytes lib n (lib.new_v4 n) u decodes h
