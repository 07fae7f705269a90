-- ===== src/File/Fuel.antt =====
-- The fuel of the loop that reads the file (internal/storage/file/file.go: readURLsFromFile).
use shorty.Base.{
  Str, ℕ, zero, suc, ◌<◌, ◌≤◌, ◌≡◌, ◌≢◌, refl, Option, none, some, [], ◌∷◌, arith, length,
}
use shorty.Errors.{Result, ok, err, Outcome, returns, panics}
use shorty.Model.{UrlRecord}
use shorty.Memory.{Db, new_db}
use shorty.File.{
  Codec, read_bytes, parse_line, read_on, out_of_fuel, read_urls, read_urls_from_file,
}

length-read_bytes : (b : ℕ) (s : Str) → length (read_bytes (b ∷ s)).1 ≤ length s
unfolding read_bytes
length-read_bytes b [] = ground arith
length-read_bytes b (d ∷ s) = ground (arith, length-read_bytes d s)

read_on-same :
    (o : Option (Outcome (Result UrlRecord))) (db : Db) (next next' : Db → Outcome (Result Db))
    → ((db' : Db) → next db' ≡ next' db')
    → read_on o db next ≡ read_on o db next'
unfolding read_on
read_on-same none db next next' h = refl
read_on-same (some panics) db next next' h = refl
read_on-same (some (returns (err e))) db next next' h = refl
read_on-same (some (returns (ok r))) db next next' h = h _

module _ (c : Codec) where
  read_urls-same :
      (n m : ℕ) (s : Str) (db : Db)
      → length s < n
      → length s < m
      → read_urls c n s db ≡ read_urls c m s db
  unfolding read_urls read_on parse_line read_bytes
  read_urls-same zero m s db hn hm = absurd (omega arith)
  read_urls-same (suc n) zero s db hn hm = absurd (omega arith)
  read_urls-same (suc n) (suc m) [] db hn hm = refl
  read_urls-same (suc n) (suc m) (b ∷ s) db hn hm =
      read_on-same _ db (read_urls c n (read_bytes (b ∷ s)).1)
        (read_urls c m (read_bytes (b ∷ s)).1)
        (λ db'.
          read_urls-same n m (read_bytes (b ∷ s)).1 db' (omega (arith, length-read_bytes b s))
            (omega (arith, length-read_bytes b s)))

  read_on-enough :
      (o : Option (Outcome (Result UrlRecord))) (db : Db) (next : Db → Outcome (Result Db))
      → ((db' : Db) → next db' ≢ returns (err out_of_fuel))
      → read_on o db next ≢ returns (err out_of_fuel)
  unfolding read_on
  read_on-enough none db next h e = cc e
  read_on-enough (some panics) db next h e = cc e
  read_on-enough (some (returns (err x))) db next h e = cc e
  read_on-enough (some (returns (ok r))) db next h e = h _ e

  read_urls-enough :
      (n : ℕ) (s : Str) (db : Db) → length s < n → read_urls c n s db ≢ returns (err out_of_fuel)
  unfolding read_urls read_bytes parse_line read_on
  read_urls-enough zero s db h e = absurd (omega arith)
  read_urls-enough (suc n) [] db h e = cc e
  read_urls-enough (suc n) (b ∷ s) db h e =
      read_on-enough _ db (read_urls c n (read_bytes (b ∷ s)).1)
        (λ db'.
          read_urls-enough n (read_bytes (b ∷ s)).1 db' (omega (arith, length-read_bytes b s)))
        e

  -- The loop that reads a file does not run out of fuel: readURLsFromFile never ends with the error
  -- that stands for it, and any amount of fuel that exceeds the length of the file gives what
  -- readURLsFromFile returns.
  pub read_urls_fuel :
      (s : Str) (n : ℕ)
      → length s < n
      → (read_urls c n s new_db ≡ read_urls_from_file c (ok s))
        × (read_urls_from_file c (ok s) ≢ returns (err out_of_fuel))
  unfolding read_urls_from_file
  read_urls_fuel s n h = (
    read_urls-same n (suc (length s)) s new_db h (omega arith),
    read_urls-enough (suc (length s)) s new_db (omega arith),
  )
