-- ===== src/Memory/Invariant.antt =====
-- The well-formed states of the in-memory storage (internal/storage/memory/simple.go), and sequences
-- of calls.
use shorty.Base.{
  Str, ℕ, ◌≡◌, refl, inl, inr, Bool, Option, none, some, List, [], ◌∷◌, arith, lookup, insert,
  str_eq, str_eq_iff, All, HasDistinctKeys, insert-HasDistinctKeys, Bool-cases, if_both,
}
use shorty.Errors.{Result, ok, err}
use shorty.Model.{Url, UrlRecord}
use shorty.Memory.{
  Db, Memory, new, store, put_new, store_batch, finish_batch, put_batch, delete_found, delete_one,
  delete_each, delete_user_urls, new_record, mark_deleted,
}

abbrev pub IsFiled : Str × UrlRecord → Type 0
IsFiled e = e.1.short_url ≡ e.0

pub record IsWellFormed (db : Db) : Type 0 where
  pub distinct : HasDistinctKeys db
  pub filed : All IsFiled db

lookup-IsFiled :
    (k : Str) (db : Db) (r : UrlRecord) → All IsFiled db → lookup k db ≡ some r → r.short_url ≡ k
unfolding lookup
lookup-IsFiled k [] r h e = cc
lookup-IsFiled k ((j, v) ∷ db) r h e = ground (arith, str_eq_iff j k, lookup-IsFiled k db r)

insert-IsFiled :
    (k : Str) (r : UrlRecord) (db : Db)
    → r.short_url ≡ k
    → All IsFiled db
    → All IsFiled (insert k r db)
unfolding insert
insert-IsFiled k r [] e h = (e, tt)
insert-IsFiled k r ((j, v) ∷ db) e (f, h) = ground (arith, insert-IsFiled k r db)

insert-IsWellFormed :
    (k : Str) (r : UrlRecord) (db : Db)
    → r.short_url ≡ k
    → IsWellFormed db
    → IsWellFormed (insert k r db)
insert-IsWellFormed k r db e w = record {
  distinct = insert-HasDistinctKeys k r db w.distinct;
  filed = insert-IsFiled k r db e w.filed;
}

put_batch-IsWellFormed :
    (urls : List Url) (ids : List Str) (db : Db)
    → IsWellFormed db
    → IsWellFormed (put_batch urls ids db)
unfolding put_batch
put_batch-IsWellFormed [] ids db w = w
put_batch-IsWellFormed (url ∷ urls) [] db w = w
put_batch-IsWellFormed (url ∷ urls) (id ∷ ids) db w =
    put_batch-IsWellFormed urls ids _ (insert-IsWellFormed url.short (new_record id url) db refl w)

delete_found-IsWellFormed :
    (url : Url) (o : Option UrlRecord) (db : Db) (n : ℕ)
    → lookup url.short db ≡ o
    → IsWellFormed db
    → IsWellFormed (delete_found url o (db, n)).0
unfolding delete_found
delete_found-IsWellFormed url none db n e w = w
delete_found-IsWellFormed url (some r) db n e w = elim (Bool-cases (str_eq r.user_id url.user_id)) [
  | inl own ↦ rw own (
      insert-IsWellFormed url.short (mark_deleted r) db (lookup-IsFiled url.short db r w.filed e) w)
  | inr other ↦ rw other w
]

delete_each-IsWellFormed :
    (urls : List Url) (db : Db) (n : ℕ)
    → IsWellFormed db
    → IsWellFormed (delete_each urls (db, n)).0
unfolding delete_each delete_one
delete_each-IsWellFormed [] db n w = w
delete_each-IsWellFormed (url ∷ urls) db n w =
    delete_each-IsWellFormed urls (delete_found url (lookup url.short db) (db, n)).0
      (delete_found url (lookup url.short db) (db, n)).1
      (delete_found-IsWellFormed url (lookup url.short db) db n refl w)

-- The calls that change the storage.
pub data Call : Type 0 where
  stores : Url → Bool → Call
  stores_batch deletes : List Url → Call

pub delete_user_urls-IsWellFormed :
    (urls : List Url) (m : Memory) → IsWellFormed m.db → IsWellFormed (delete_user_urls urls m).1.db
unfolding delete_user_urls
delete_user_urls-IsWellFormed urls m w = delete_each-IsWellFormed urls m.db 0 w

module _ (new_v4 : ℕ → Result Str) where
  pub step : Memory → Call → Memory
  step m (stores url overwrite) = (store new_v4 url overwrite m).1
  step m (stores_batch urls) = (store_batch new_v4 urls m).1
  step m (deletes urls) = (delete_user_urls urls m).1

  pub run : Memory → List Call → Memory
  run m [] = m
  run m (c ∷ cs) = run (step m c) cs

  put_new-IsWellFormed :
      (url : Url) (m : Memory) (r : Result Str)
      → IsWellFormed m.db
      → IsWellFormed (put_new new_v4 url m r).1.db
  unfolding put_new
  put_new-IsWellFormed url m (err e) w = w
  put_new-IsWellFormed url m (ok id) w =
      insert-IsWellFormed url.short (new_record id url) m.db refl w

  finish_batch-IsWellFormed :
      (urls : List Url) (m : Memory) (r : Result (List Str) × ℕ)
      → IsWellFormed m.db
      → IsWellFormed (finish_batch urls m r).1.db
  unfolding finish_batch
  finish_batch-IsWellFormed urls m (err e, n) w = w
  finish_batch-IsWellFormed urls m (ok ids, n) w = put_batch-IsWellFormed urls ids m.db w

  step-IsWellFormed : (m : Memory) (c : Call) → IsWellFormed m.db → IsWellFormed (step m c).db
  unfolding step store store_batch
  step-IsWellFormed m (stores url overwrite) w =
      if_both (λ r. IsWellFormed r.1.db) _ _ (put_new new_v4 url m (new_v4 m.drawn)) w
        (put_new-IsWellFormed url m (new_v4 m.drawn) w)
  step-IsWellFormed m (stores_batch urls) w = finish_batch-IsWellFormed urls m _ w
  step-IsWellFormed m (deletes urls) w = delete_user_urls-IsWellFormed urls m w

  -- From a well-formed database every sequence of calls, failing or not, leads to a well-formed one.
  pub run-IsWellFormed :
      (m : Memory) (cs : List Call) → IsWellFormed m.db → IsWellFormed (run m cs).db
  unfolding run
  run-IsWellFormed m [] w = w
  run-IsWellFormed m (c ∷ cs) w = run-IsWellFormed (step m c) cs (step-IsWellFormed m c w)

pub new-IsWellFormed : IsWellFormed new.db
unfolding new
new-IsWellFormed = record { distinct = tt; filed = tt }
