-- ===== src/Memory/Deletion.antt =====
-- Memory.DeleteUserURLs (internal/storage/memory/simple.go): what is deleted, and the count.
use shorty.Base.{
  Str, ℕ, ◌+◌, ◌<◌, ◌^◌, ◌≡◌, ◌∙◌, refl, Bool, false, ◌&&◌, Option, none, some, List, [], ◌∷◌,
  arith, lookup, lookup-insert, length, any, str_eq, str_eq_iff, if◌then◌else◌, ap,
}
use shorty.Errors.{ok, err, model_err, deleted}
use shorty.Model.{Url, UrlRecord}
use shorty.Memory.{
  Db, Memory, get, found, delete_found, delete_one, delete_each, delete_user_urls, mark_deleted,
}

-- The batch holds an entry for this key by the record's owner.
abbrev pub requested : Str → UrlRecord → List Url → Bool
requested k r urls = any (λ url. str_eq url.short k && str_eq r.user_id url.user_id) urls

abbrev after_delete : Str → List Url → Option UrlRecord → Option UrlRecord
after_delete k urls none = none
after_delete k urls (some r) = some (if requested k r urls then mark_deleted r else r)

abbrev is_owned : Url → Option UrlRecord → Bool
is_owned url none = false
is_owned url (some r) = str_eq r.user_id url.user_id

-- How many entries of the batch name a record of their own user.
abbrev count_owned : List Url → Db → ℕ
count_owned [] db = 0
count_owned (url ∷ urls) db =
    (if is_owned url (lookup url.short db) then 1 else 0) + count_owned urls db

lookup-delete_found :
    (url : Url) (o : Option UrlRecord) (db : Db) (n : ℕ) (k : Str)
    → lookup url.short db ≡ o
    → lookup k (delete_found url o (db, n)).0 ≡ after_delete k (url ∷ []) (lookup k db)
unfolding delete_found
lookup-delete_found url none db n k h = ground (arith, str_eq_iff url.short k)
lookup-delete_found url (some r) db n k h =
    ground (arith, str_eq_iff url.short k, lookup-insert url.short k (mark_deleted r) db)

lookup-delete_one :
    (url : Url) (db : Db) (n : ℕ) (k : Str)
    → lookup k (delete_one url (db, n)).0 ≡ after_delete k (url ∷ []) (lookup k db)
unfolding delete_one
lookup-delete_one url db n k = lookup-delete_found url (lookup url.short db) db n k refl

after_delete-cons :
    (k : Str) (url : Url) (urls : List Url) (o : Option UrlRecord)
    → after_delete k urls (after_delete k (url ∷ []) o) ≡ after_delete k (url ∷ urls) o
after_delete-cons k url urls none = refl
after_delete-cons k url urls (some r) = ground arith

lookup-delete_each :
    (urls : List Url) (db : Db) (n : ℕ) (k : Str)
    → lookup k (delete_each urls (db, n)).0 ≡ after_delete k urls (lookup k db)
unfolding delete_each
lookup-delete_each [] db n k = ground arith
lookup-delete_each (url ∷ urls) db n k =
    lookup-delete_each urls (delete_one url (db, n)).0 (delete_one url (db, n)).1 k
    ∙ ap (after_delete k urls) (lookup-delete_one url db n k)
    ∙ after_delete-cons k url urls (lookup k db)

-- A batch deletion marks exactly the records that it names by key and owner, and changes nothing
-- else of any record.
lookup-delete_user_urls :
    (urls : List Url) (m : Memory) (k : Str)
    → lookup k (delete_user_urls urls m).1.db ≡ after_delete k urls (lookup k m.db)
unfolding delete_user_urls
lookup-delete_user_urls urls m k = lookup-delete_each urls m.db 0 k

abbrev pub is_requested : Str → List Url → Option UrlRecord → Bool
is_requested k urls none = false
is_requested k urls (some r) = requested k r urls

found-after_delete :
    (k : Str) (urls : List Url) (o : Option UrlRecord)
    → found (after_delete k urls o)
      ≡ (if is_requested k urls o then err (model_err deleted) else found o)
found-after_delete k urls none = refl
found-after_delete k urls (some r) = ground arith

-- After a batch deletion a key that the batch names by its owner is found deleted, and every other
-- key is found as before.
pub get-delete_user_urls :
    (urls : List Url) (m : Memory) (k : Str)
    → (get k (delete_user_urls urls m).1).0
      ≡ (if is_requested k urls (lookup k m.db) then err (model_err deleted) else (get k m).0)
unfolding get
get-delete_user_urls urls m k =
    ap found (lookup-delete_user_urls urls m k) ∙ found-after_delete k urls (lookup k m.db)

is_owned-delete_one :
    (u url : Url) (db : Db) (n : ℕ)
    → is_owned u (lookup u.short (delete_one url (db, n)).0) ≡ is_owned u (lookup u.short db)
is_owned-delete_one u url db n = rw lookup-delete_one (ground arith)

count_owned-delete_one :
    (urls : List Url) (url : Url) (db : Db) (n : ℕ)
    → count_owned urls (delete_one url (db, n)).0 ≡ count_owned urls db
count_owned-delete_one [] url db n = refl
count_owned-delete_one (u ∷ urls) url db n =
    rw (is_owned-delete_one u url db n, count_owned-delete_one urls url db n)

count-delete_one :
    (url : Url) (db : Db) (n : ℕ)
    → n + 1 < 2 ^ 64
    → (delete_one url (db, n)).1 ≡ n + (if is_owned url (lookup url.short db) then 1 else 0)
unfolding delete_one
count-delete_one url db n h = ground arith

count-delete_each :
    (urls : List Url) (db : Db) (n : ℕ)
    → n + length urls < 2 ^ 64
    → (delete_each urls (db, n)).1 ≡ n + count_owned urls db
unfolding delete_each
count-delete_each [] db n h = omega arith
count-delete_each (url ∷ urls) db n h =
    let one = count-delete_one url db n (omega arith) in
    ground (
      arith,
      one,
      count-delete_each urls (delete_one url (db, n)).0 (delete_one url (db, n)).1,
      count_owned-delete_one urls url db n,
    )

-- The number that DeleteUserURLs reports is that of the entries whose record belongs to the entry's
-- user, for a batch shorter than 2^63.
count-delete_user_urls :
    (urls : List Url) (m : Memory)
    → length urls < 2 ^ 63
    → (delete_user_urls urls m).0 ≡ ok (count_owned urls m.db)
unfolding delete_user_urls
count-delete_user_urls urls m h = ap ok (count-delete_each urls m.db 0 (omega arith) ∙ omega arith)
