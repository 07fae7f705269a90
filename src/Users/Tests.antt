-- ===== src/Users/Tests.antt =====
-- A user that is made and then known by its id.
use shorty.Base.{Str, str, ◌≡◌, refl, true, Option, none, [], ◌∷◌}
use shorty.Errors.{Err, Result, ok, err, message}
use shorty.Model.{new_with_id}
use shorty.Auth.{new_user}
use shorty.Auth.Tests as A
use shorty.Users.{new_from_user_id, new_from_user_id-new_user}

-- The encoding is a letter before the bytes.
abbrev decode : Str → Result Str
decode [] = err (message (str "illegal base64 data"))
decode (c ∷ s) = ok s

abbrev valid : Str → Option Err
valid bytes = none

new_from_user_id-new_user_case :
    new_from_user_id decode valid (b'u' ∷ 5 ∷ []) ≡ ok (new_with_id (b'u' ∷ 5 ∷ []))
unfolding new_user
new_from_user_id-new_user_case =
    new_from_user_id-new_user decode valid A.library 5 (record { id = b'u' ∷ 5 ∷ []; new = true })
      (λ bytes h. (refl, refl)) refl
