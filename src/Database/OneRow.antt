-- ===== src/Database/OneRow.antt =====
-- A table with room for one row, as an instance of the queries of
-- internal/storage/database/database.go.
use shorty.Base.{
  Str, str, ℕ, ◌≡◌, refl, ap, Bool, false, not, ◌&&◌, Option, none, some, [], str_eq, str_eq_iff,
  str_eq_refl, if◌then◌else◌, arith,
}
use shorty.Errors.{Err, ok, err, message}
use shorty.Database.{
  PgError, unique_violation, other_pg_error, Scanned, row, no_rows, Executed, affected, exec_error,
  Pool, urls_index_orig,
}
use shorty.Database.Table.{Row, Rows, scanned, IsTable}

abbrev pub Table : Type 0
Table = Option (Str × Row)

abbrev pub rows : Rows Table
rows none k = none
rows (some (j, r)) k = if str_eq j k then some r else none

abbrev full : PgError
full = other_pg_error (message (str "disk full"))

abbrev duplicate : Err
duplicate = message (str "duplicate key")

abbrev insert_row : Str → Str → Table → Executed × Table
insert_row h o none = (affected 1, some (h, record { orig = o; deleted = false }))
insert_row h o (some (j, r)) =
    if str_eq r.orig o
    then (exec_error (unique_violation urls_index_orig duplicate), some (j, r))
    else (exec_error full, some (j, r))

abbrev find_orig : Str → Table → Scanned Str
find_orig o none = no_rows
find_orig o (some (j, r)) = if str_eq r.orig o && not r.deleted then row j else no_rows

abbrev pub one_row : Pool Table
one_row = record {
  ping = λ s. (none, s);
  query_stats = λ s. (err duplicate, s);
  insert = λ h o u s. insert_row h o s;
  send_inserts = λ urls s. (some full, s);
  select_by_hash = λ h s. (scanned (rows s h), s);
  select_by_orig = λ o s. (find_orig o s, s);
  select_by_user = λ u s. (ok [], s);
  send_deletions = λ ds s. (ok [], s);
  update_hash = λ h o s. (exec_error full, s);
}

find_orig_row :
    (j o : Str) (d : Bool) (s : Table)
    → rows s j ≡ some (record { orig = o; deleted = d })
    → find_orig o s ≡ (if d then no_rows else row j)
find_orig_row j o d none h = cc h
find_orig_row j o d (some (i, r)) h =
    ground (arith, str_eq_iff i j, str_eq_iff r.orig o, str_eq_refl o)

insert_row_affected :
    (h o : Str) (s : Table) (n : ℕ) → (insert_row h o s).0 ≡ affected n → (s ≡ none) × (n ≡ 1)
insert_row_affected h o none n e = (refl, ground arith)
insert_row_affected h o (some (j, r)) n e = ground arith

rows-insert_row :
    (h o k : Str) (s : Table)
    → s ≡ none
    → rows (insert_row h o s).1 k
      ≡ (if str_eq h k then some (record { orig = o; deleted = false }) else rows s k)
rows-insert_row h o k s e = rw e refl

insert_row_failed :
    (h o : Str) (s : Table) (e : PgError)
    → (insert_row h o s).0 ≡ exec_error e
    → (insert_row h o s).1 ≡ s
insert_row_failed h o none e q = cc q
insert_row_failed h o (some (j, r)) e q = ground arith

insert_row_taken :
    (h j o : Str) (d : Bool) (s : Table)
    → rows s j ≡ some (record { orig = o; deleted = d })
    → (insert_row h o s).0 ≡ exec_error (unique_violation urls_index_orig duplicate)
insert_row_taken h j o d none e = cc e
insert_row_taken h j o d (some (i, r)) e = ground (arith, str_eq_refl o)

pub one_row-IsTable : IsTable one_row rows
one_row-IsTable = record {
  select_row = λ h s letters. refl;
  select_keeps = λ h k s. refl;
  select_orig = λ j o d s h. find_orig_row j o d s h;
  select_orig_keeps = λ o k s. refl;
  insert_free = λ h o u s n short e. rw (insert_row_affected h o s n e).0 refl;
  insert_done =
      λ h o u s n short long e k. rows-insert_row h o k s (insert_row_affected h o s n e).0;
  insert_one = λ h o u s n e. (insert_row_affected h o s n e).1;
  insert_failed = λ h o u s e q k. ap (λ t. rows t k) (insert_row_failed h o s e q);
  insert_taken = λ h j o u d s is_hash is_id e free. (duplicate, insert_row_taken h j o d s e);
}
