-- ===== src/File/Races.antt =====
-- The saving loop against the calls that change the storage (internal/storage/file/file.go:
-- maintainPersistence, persist, Store, StoreBatch, DeleteUserURLs). A call changes the database under
-- its mutex, and sets `changed` afterwards; the loop takes a copy, writes it, and clears `changed`.
use shorty.Base.{ℕ, suc, Str, ◌≡◌, refl, Bool, true, false, none, some, List}
use shorty.Errors.{Err, Result}
use shorty.Model.{Url}
use shorty.Memory.{Db, Memory, store, store_batch, delete_user_urls}

-- The saving loop: idle; before the copy; with a copy to write; with the file written.
pub data Saver : Type 0 where
  idle loaded written : Saver
  copied : Db → Saver

-- `unmarked` counts the calls that have changed the database and not yet set `changed`; `entered`
-- those that have passed the shutdown test and not yet changed it.
pub record Saving : Type 0 where
  pub memory : Memory
  pub file : Db
  pub changed : Bool
  pub shutdown : Bool
  pub entered : ℕ
  unmarked : ℕ
  saver : Saver

-- What a call of Store, StoreBatch or DeleteUserURLs that has no error makes of the database.
pub data Change (new_v4 : ℕ → Result Str) (m : Memory) : Memory → Type 0 where
  url_stored :
      (url : Url) (overwrite : Bool)
      → (store new_v4 url overwrite m).0.1 ≡ none
      → Change new_v4 m (store new_v4 url overwrite m).1
  batch_stored :
      (urls : List Url)
      → (store_batch new_v4 urls m).0 ≡ none
      → Change new_v4 m (store_batch new_v4 urls m).1
  urls_deleted : (urls : List Url) → Change new_v4 m (delete_user_urls urls m).1

-- The same for one that has an error, after which it does not set `changed`.
pub data Refusal (new_v4 : ℕ → Result Str) (m : Memory) : Memory → Type 0 where
  url_refused :
      (url : Url) (overwrite : Bool) (e : Err)
      → (store new_v4 url overwrite m).0.1 ≡ some e
      → Refusal new_v4 m (store new_v4 url overwrite m).1
  batch_refused :
      (urls : List Url) (e : Err)
      → (store_batch new_v4 urls m).0 ≡ some e
      → Refusal new_v4 m (store_batch new_v4 urls m).1

module _ (new_v4 : ℕ → Result Str) where
  pub data Step (s : Saving) : Saving → Type 0 where
    enter : s.shutdown ≡ false → Step s (record s { entered = suc s.entered })
    change :
        (n : ℕ) (m : Memory)
        → s.entered ≡ suc n
        → Change new_v4 s.memory m
        → Step s (record s { entered = n; memory = m; unmarked = suc s.unmarked })
    refuse :
        (n : ℕ) (m : Memory)
        → s.entered ≡ suc n
        → Refusal new_v4 s.memory m
        → Step s (record s { entered = n; memory = m })
    mark : (n : ℕ) → s.unmarked ≡ suc n → Step s (record s { unmarked = n; changed = true })
    load : s.saver ≡ idle → s.changed ≡ true → Step s (record s { saver = loaded })
    copy : s.saver ≡ loaded → Step s (record s { saver = copied s.memory.db })
    write : (db : Db) → s.saver ≡ copied db → Step s (record s { saver = written; file = db })
    clear : s.saver ≡ written → Step s (record s { saver = idle; changed = false })
    -- Close, or the end of the context
    stop : Step s (record s { shutdown = true })

  pub data Reach (s : Saving) : Saving → Type 0 where
    here : Reach s s
    next : {t u : Saving} → Reach s t → Step t u → Reach s u

pub start : Memory → Saving
start m = record {
  memory = m;
  file = m.db;
  changed = false;
  shutdown = false;
  entered = 0;
  unmarked = 0;
  saver = idle;
}

-- No call is under way, and the loop is idle.
pub record IsQuiet (s : Saving) : Type 0 where
  none_entered : s.entered ≡ 0
  none_unmarked : s.unmarked ≡ 0
  is_idle : s.saver ≡ idle

-- A change made while the loop writes an earlier copy loses its mark: whatever two calls without an
-- error do, one after the other, there is a run after which no call is under way, nothing is marked
-- as changed, the database has both changes and the file has the first one only.
pub lost_change :
    (new_v4 : ℕ → Result Str) (first second third : Memory)
    → Change new_v4 first second
    → Change new_v4 second third
    → (s : Saving) × Reach new_v4 (start first) s
      × IsQuiet s
      × (s.changed ≡ false)
      × (s.memory ≡ third)
      × (s.file ≡ second.db)
unfolding start
lost_change new_v4 first second third c d =
    let one : Reach new_v4 (start first)
        (record (start first) { memory = second; changed = true }) =
      next (next (next here (enter refl)) (change 0 second refl c)) (mark 0 refl) in
    let copying = next (next one (load refl refl)) (copy refl) in
    let two = next (next (next copying (enter refl)) (change 0 third refl d)) (mark 0 refl) in
    (
      _,
      next (next two (write second.db refl)) (clear refl),
      record { none_entered = refl; none_unmarked = refl; is_idle = refl },
      refl,
      refl,
      refl,
    )
