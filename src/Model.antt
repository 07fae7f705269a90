-- ===== src/Model.antt =====
-- internal/model/model.go, internal/storage/memory/db/db.go (the record), internal/user/user.go
-- (the user object), and the storage interfaces of the services and of internal/app.
use shorty.Base.{Str, ℕ, Bool, false, Option, List, ◌^◌, ◌%◌}
use shorty.Errors.{Err, Result}

-- An int64, as its bit pattern.
abbrev pub wrap64 : ℕ → ℕ
wrap64 n = n % 2 ^ 64

-- `ts` is an int64, as its bit pattern.
pub record Url : Type 0 where
  pub short : Str
  pub orig : Str
  pub user_id : Str
  pub ts : ℕ

pub record Stats : Type 0 where
  pub urls : ℕ
  pub users : ℕ

-- A record of the in-memory database.
pub record UrlRecord : Type 0 where
  pub uuid : Str
  pub short_url : Str
  pub original_url : Str
  pub user_id : Str
  pub is_deleted : Bool

pub record User : Type 0 where
  pub id : Str
  pub new : Bool

abbrev pub is_new : User → Bool
is_new u = u.new

abbrev pub new_with_id : Str → User
new_with_id id = record { id = id; new = false }

-- The storage methods that the services call, on a state `S`. A method with two results gives both.
pub record Storage (S : Type 0) : Type 0 where
  pub get : Str → S → Result Str × S
  pub store : Url → Bool → S → (Str × Option Err) × S
  pub store_batch : List Url → S → Option Err × S
  pub list_user_urls : Str → S → Result (List Url) × S
  pub delete_user_urls : List Url → S → Result ℕ × S
  pub ping : S → Option Err × S
  pub stats : S → Result Stats × S
