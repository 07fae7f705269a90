-- ===== src/Memory/Listing.antt =====
-- What ListUserURLs lists (internal/storage/memory/simple.go).
use shorty.Base.{
  Str, ◌≡◌, refl, ◌↔◌, inl, inr, none, some, List, [], ◌∷◌, arith, lookup, str_eq, str_eq_iff, All,
  Any, HasDistinctKeys, Bool-cases,
}
use shorty.Errors.{ok}
use shorty.Model.{Url, UrlRecord}
use shorty.Memory.{Db, Memory, list_user_urls, user_urls}
use shorty.Memory.Invariant.{IsFiled, IsWellFormed}

-- The entry of the listing that stands for a record.
abbrev listed : Str → UrlRecord → Url
listed user_id r = record { short = r.short_url; orig = r.original_url; user_id = user_id; ts = 0 }

-- The database holds a record of the user that is listed as `url`.
abbrev pub IsListed : Str → Db → Url → Type 0
IsListed user_id db url =
    (r : UrlRecord) × (lookup url.short db ≡ some r)
    × (r.user_id ≡ user_id)
    × (url ≡ listed user_id r)

module _ (user_id : Str) (url : Url) where
  IsListed-cons :
      (k : Str) (v : UrlRecord) (db : Db)
      → lookup k db ≡ none
      → IsListed user_id db url
      → IsListed user_id ((k, v) ∷ db) url
  unfolding lookup
  IsListed-cons k v db fresh (r, at, own, e) = (r, ground (arith, str_eq_iff k url.short), own, e)

  user_urls_sound :
      (db : Db)
      → HasDistinctKeys db
      → All IsFiled db
      → Any (λ u. url ≡ u) (user_urls user_id db)
      → IsListed user_id db url
  unfolding user_urls lookup
  user_urls_sound [] d f h = absurd h
  user_urls_sound ((k, v) ∷ db) (fresh, d) (fk, f) h =
      elim (Bool-cases (str_eq v.user_id user_id)) [
        | inl own ↦ elim (rw own at h) [
          | inl e ↦ (v, ground (arith, str_eq_iff k url.short), (str_eq_iff _ _).0 own, e)
          | inr later ↦ IsListed-cons k v db fresh (user_urls_sound db d f later)
        ]
        | inr other ↦ IsListed-cons k v db fresh (user_urls_sound db d f (rw other at h))
      ]

  user_urls_complete :
      (db : Db) (r : UrlRecord)
      → lookup url.short db ≡ some r
      → r.user_id ≡ user_id
      → url ≡ listed user_id r
      → Any (λ u. url ≡ u) (user_urls user_id db)
  unfolding user_urls lookup
  user_urls_complete [] r at own e = cc
  user_urls_complete ((k, v) ∷ db) r at own e =
      ground (arith, str_eq_iff k url.short, str_eq_iff v.user_id user_id, user_urls_complete db r)

-- In a well-formed storage ListUserURLs lists exactly the records of the user, whether deleted or
-- not.
pub list_user_urls_iff :
    (user_id : Str) (url : Url) (m : Memory)
    → IsWellFormed m.db
    → (urls : List Url) × ((list_user_urls user_id m).0 ≡ ok urls)
      × (Any (λ u. url ≡ u) urls ↔ IsListed user_id m.db url)
unfolding list_user_urls
list_user_urls_iff user_id url m w = (
  user_urls user_id m.db,
  refl,
  (
    user_urls_sound user_id url m.db w.distinct w.filed,
    λ (r, at, own, e). user_urls_complete user_id url m.db r at own e,
  ),
)
