-- ===== src/Database/Table.antt =====
-- The PostgreSQL storage while its queries succeed (internal/storage/database/database.go, over the
-- table of internal/storage/database/migrations).
use shorty.Base.{
  Str, [], ◌≢◌, ◌≤◌, ◌==◌, ◌||◌, all, length, ℕ, ◌≡◌, refl, ap, ◌∙◌, Bool, true, false, Option,
  none, some, str_eq, if◌then◌else◌, arith, if_both, ◌⊎◌, inl, inr,
}
use shorty.Errors.{Err, Result, ok, err}
use shorty.Generators.Alphabet.{is_alphanumeric}
use shorty.Model.{Url}
use shorty.Links.{Entry, live, gone, View, entry_answer, LinkStoreFor}
use shorty.Database.{
  PgError, unique_violation, other_pg_error, unknown_error, Scanned, row, no_rows, Executed,
  affected, exec_error, Pool, urls_index_orig, urls_index_hash, inserted, conflicting,
  get_hash_by_url, store_new, database_store, database_get, database_storage,
}

-- A row, as found by its hash, which is unique.
pub record Row : Type 0 where
  pub orig : Str
  pub deleted : Bool

abbrev pub Rows : Type 0 → Type 0
Rows S = S → Str → Option Row

abbrev pub scanned : Option Row → Scanned (Str × Bool)
scanned none = no_rows
scanned (some r) = row (r.orig, r.deleted)

-- What fits into the columns hash and userid (VARCHAR(20) and VARCHAR(30), with checks that they are
-- not empty), of the texts that RandString and the base64 encoding of URLs make.
abbrev is_id_byte : ℕ → Bool
is_id_byte c = is_alphanumeric c || c == b'-' || c == b'_'

abbrev pub IsHash : Str → Type 0
IsHash h = (h ≢ []) × (length h ≤ 20) × (all is_alphanumeric h ≡ true)

abbrev pub IsUserId : Str → Type 0
IsUserId u = (u ≢ []) × (length u ≤ 30) × (all is_id_byte u ≡ true)

-- A URL whose texts are no longer than their columns: from a longer one PostgreSQL would cut off
-- spaces at its end.
abbrev pub FitsTable : Url → Type 0
FitsTable url = (length url.short ≤ 20) × (length url.orig ≤ 500)

-- What the statements do with the table, while the connection works. Both hash and orig are unique
-- over all rows, also the deleted ones; an insert whose values fit fails, by the constraint on orig,
-- where a row has this orig and none this hash.
pub record IsTable {S : Type 0} (pool : Pool S) (rows : Rows S) : Type 0 where
  pub select_row :
      (h : Str) (s : S)
      → all is_alphanumeric h ≡ true
      → (pool.select_by_hash h s).0 ≡ scanned (rows s h)
  pub select_keeps : (h k : Str) (s : S) → rows (pool.select_by_hash h s).1 k ≡ rows s k
  pub select_orig :
      (j o : Str) (d : Bool) (s : S)
      → rows s j ≡ some (record { orig = o; deleted = d })
      → (pool.select_by_orig o s).0 ≡ (if d then no_rows else row j)
  pub select_orig_keeps : (o k : Str) (s : S) → rows (pool.select_by_orig o s).1 k ≡ rows s k
  pub insert_free :
      (h o u : Str) (s : S) (n : ℕ)
      → length h ≤ 20
      → (pool.insert h o u s).0 ≡ affected n
      → rows s h ≡ none
  pub insert_done :
      (h o u : Str) (s : S) (n : ℕ)
      → length h ≤ 20
      → length o ≤ 500
      → (pool.insert h o u s).0 ≡ affected n
      → (k : Str)
      → rows (pool.insert h o u s).1 k
        ≡ (if str_eq h k then some (record { orig = o; deleted = false }) else rows s k)
  pub insert_one : (h o u : Str) (s : S) (n : ℕ) → (pool.insert h o u s).0 ≡ affected n → n ≡ 1
  pub insert_failed :
      (h o u : Str) (s : S) (e : PgError)
      → (pool.insert h o u s).0 ≡ exec_error e
      → (k : Str) → rows (pool.insert h o u s).1 k ≡ rows s k
  pub insert_taken :
      (h j o u : Str) (d : Bool) (s : S)
      → IsHash h
      → IsUserId u
      → rows s j ≡ some (record { orig = o; deleted = d })
      → rows s h ≡ none
      → (e : Err) × ((pool.insert h o u s).0 ≡ exec_error (unique_violation urls_index_orig e))

abbrev entry_of : Option Row → Option Entry
entry_of none = none
entry_of (some r) = if r.deleted then some gone else some (live r.orig)

abbrev pub row_view : {S : Type 0} → Rows S → View S
row_view rows s k = entry_of (rows s k)

module _ {S : Type 0} (pool : Pool S) (rows : Rows S) (table : IsTable pool rows) where
  answer_of_row :
      (o : Option Row) → shorty.Database.got pool (scanned o) ≡ entry_answer (entry_of o)
  answer_of_row none = refl
  answer_of_row (some r) = ground arith

  -- What the branches of Store leave of an insert.
  pub record IsInserted (url : Url) (s : S) (x : Executed × S) : Type 0 where
    pub done :
        (n : ℕ)
        → x.0 ≡ affected n
        → (n ≡ 1)
          × (FitsTable url
              → (rows s url.short ≡ none)
                × ((k : Str)
                    → rows x.1 k ≡ (
                        if str_eq url.short k
                        then some (record { orig = url.orig; deleted = false })
                        else rows s k)))
    pub failed : (e : PgError) → x.0 ≡ exec_error e → (k : Str) → rows x.1 k ≡ rows s k

  insert-IsInserted :
      (url : Url) (s : S) → IsInserted url s (pool.insert url.short url.orig url.user_id s)
  insert-IsInserted url s = record {
    done = λ n h. (
      table.insert_one url.short url.orig url.user_id s n h,
      λ (short, long). (
        table.insert_free url.short url.orig url.user_id s n short h,
        table.insert_done url.short url.orig url.user_id s n short long h,
      ),
    );
    failed = table.insert_failed url.short url.orig url.user_id s;
  }

  -- The answer and the rows after a Store.
  abbrev Outcomes : Url → S → (Str × Option Err) × S → Type 0
  Outcomes url s r =
      (((r.0.1 ≡ none)
          × (FitsTable url
              → (rows s url.short ≡ none)
                × ((k : Str)
                    → rows r.1 k ≡ (
                        if str_eq url.short k
                        then some (record { orig = url.orig; deleted = false })
                        else rows s k))))
        ⊎ ((e : Err) × (r.0.1 ≡ some e) × ((k : Str) → rows r.1 k ≡ rows s k)))

  conflicting-Outcomes :
      (url : Url) (s : S) (r : Result Str × S)
      → ((k : Str) → rows r.1 k ≡ rows s k)
      → Outcomes url s (conflicting pool r)
  conflicting-Outcomes url s (err e, s') h = inr (_, refl, h)
  conflicting-Outcomes url s (ok j, s') h = inr (_, refl, h)

  violated-Outcomes :
      (url : Url) (s s' : S) (constraint : Str) (e : Err)
      → ((k : Str) → rows s' k ≡ rows s k)
      → Outcomes url s (inserted pool url (exec_error (unique_violation constraint e), s'))
  violated-Outcomes url s s' constraint e h =
      if_both (Outcomes url s) (str_eq constraint urls_index_hash) _ _ (inr (_, refl, h)) (
        if_both (Outcomes url s) (str_eq constraint urls_index_orig) _ _
          (conflicting-Outcomes url s (get_hash_by_url pool url.orig s')
            (λ k. table.select_orig_keeps url.orig k s' ∙ h k))
          (inr (_, refl, h)))

  inserted-Outcomes :
      (url : Url) (s : S) (x : Executed × S)
      → IsInserted url s x
      → Outcomes url s (inserted pool url x)
  inserted-Outcomes url s (affected n, s') i =
      let (one, after) = i.done n refl in rw one (inl (refl, after))
  inserted-Outcomes url s (exec_error (unknown_error e), s') i = inr (_, refl, i.failed _ refl)
  inserted-Outcomes url s (exec_error (other_pg_error e), s') i = inr (_, refl, i.failed _ refl)
  inserted-Outcomes url s (exec_error (unique_violation constraint e), s') i =
      violated-Outcomes url s s' constraint e (i.failed _ refl)

  store-Outcomes : (url : Url) (s : S) → Outcomes url s (database_store pool url false s)
  unfolding database_store store_new
  store-Outcomes url s = inserted-Outcomes url s _ (insert-IsInserted url s)

  module _ (now : ℕ) where
    entry_after :
        (url : Url) (k : Str) (o : Option Row) (b : Bool)
        → entry_of (if b then some (record { orig = url.orig; deleted = false }) else o)
          ≡ (if b then some (live url.orig) else entry_of o)
    entry_after url k o true = refl
    entry_after url k o false = refl

    -- While its queries do what PostgreSQL documents, the database is a storage of links.
    pub database_storage-LinkStore :
        LinkStoreFor FitsTable (database_storage pool now) (row_view rows)
    unfolding database_get
    database_storage-LinkStore = record {
      get_answer = λ k s letters.
          ap (shorty.Database.got pool) (table.select_row k s letters) ∙ answer_of_row (rows s k);
      get_keeps = λ k j s. ap entry_of (table.select_keeps k j s);
      store_free = λ url s fits done. elim (store-Outcomes url s) [
        | inl (_, after) ↦ rw (after fits).0 refl
        | inr (e, failed, _) ↦ cc (done, failed)
      ];
      store_done = λ url s fits done k. elim (store-Outcomes url s) [
        | inl (_, after) ↦
            ap entry_of ((after fits).1 k) ∙ entry_after url k (rows s k) (str_eq url.short k)
        | inr (e, failed, _) ↦ cc (done, failed)
      ];
      store_failed = λ url s e failed k. elim (store-Outcomes url s) [
        | inl (done, _) ↦ cc (done, failed)
        | inr (_, _, same) ↦ ap entry_of (same k)
      ];
    }
