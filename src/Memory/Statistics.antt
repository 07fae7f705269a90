-- ===== src/Memory/Statistics.antt =====
-- DB.Stats (internal/storage/memory/db/db.go).
use shorty.Base.{
  Str, ℕ, ◌+◌, ◌<◌, ◌^◌, ◌≡◌, refl, ◌∙◌, Bool, true, false, not, ◌&&◌, List, [], ◌∷◌, arith, lookup,
  insert, lookup-insert, length, any, str_eq, str_eq_iff, if◌then◌else◌, GoMap,
}
use shorty.Model.{UrlRecord}
use shorty.Memory.{Db, seen, count_users, db_stats}

-- A record of this user that is not deleted stands in the database.
abbrev pub has_live : Str → Db → Bool
has_live user db = any (λ e. str_eq e.1.user_id user && not e.1.is_deleted) db

abbrev pub contains : Str → List Str → Bool
contains user users = any (λ u. str_eq u user) users

abbrev pub HasNoDuplicates : List Str → Type 0
HasNoDuplicates [] = Unit
HasNoDuplicates (u ∷ us) = (contains u us ≡ false) × HasNoDuplicates us

abbrev is_fresh : UrlRecord → GoMap Bool → Bool
is_fresh r users = not (seen (lookup r.user_id users)) && not r.is_deleted

-- The users that the loop counts, in the order in which it meets them.
users_from : Db → GoMap Bool → List Str
users_from [] users = []
users_from ((k, r) ∷ db) users =
    let later = users_from db (if is_fresh r users then insert r.user_id true users else users) in
    if is_fresh r users then r.user_id ∷ later else later

contains-users_from :
    (user : Str) (db : Db) (users : GoMap Bool)
    → contains user (users_from db users) ≡ has_live user db && not (seen (lookup user users))
unfolding users_from
contains-users_from user [] users = refl
contains-users_from user ((k, r) ∷ db) users = ground (
  arith,
  contains-users_from user db users,
  contains-users_from user db (insert r.user_id true users),
  str_eq_iff r.user_id user,
  lookup-insert r.user_id user true users,
)

users_from-HasNoDuplicates : (db : Db) (users : GoMap Bool) → HasNoDuplicates (users_from db users)
unfolding users_from
users_from-HasNoDuplicates [] users = tt
users_from-HasNoDuplicates ((k, r) ∷ db) users = ground (
  arith,
  contains-users_from r.user_id db (insert r.user_id true users),
  lookup-insert r.user_id r.user_id true users,
  str_eq_iff r.user_id r.user_id,
  users_from-HasNoDuplicates db users,
  users_from-HasNoDuplicates db (insert r.user_id true users),
)

length-users_from :
    (db : Db) (users : GoMap Bool) (ctr : ℕ)
    → ctr + length db < 2 ^ 64
    → count_users db users ctr ≡ ctr + length (users_from db users)
unfolding count_users users_from
length-users_from [] users ctr h = omega arith
length-users_from ((k, r) ∷ db) users ctr h = ground (
  arith,
  length-users_from db users ctr,
  length-users_from db (insert r.user_id true users) (ctr + 1),
)

-- For a database of fewer than 2^63 records the statistics count all records, the deleted ones
-- too, and exactly the users with a record that is not deleted, each once.
pub db_stats_lem :
    (db : Db)
    → length db < 2 ^ 63
    → ((db_stats db).urls ≡ length db)
      × ((users : List Str) × ((db_stats db).users ≡ length users)
          × HasNoDuplicates users
          × ((user : Str) → contains user users ≡ has_live user db))
unfolding db_stats lookup
db_stats_lem db h = (
  refl,
  (
    users_from db [],
    length-users_from db [] 0 (omega arith) ∙ omega arith,
    users_from-HasNoDuplicates db [],
    λ user. contains-users_from user db [] ∙ ground arith,
  ),
)
