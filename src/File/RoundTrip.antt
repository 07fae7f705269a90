-- ===== src/File/RoundTrip.antt =====
-- Writing the file and reading it (internal/storage/file/file.go: dumpDB2File,
-- readURLsFromFile, readURLFromLine).
use shorty.Base.{
  Str, str, ℕ, zero, suc, ◌<◌, ◌≤◌, ◌≡◌, ◌≢◌, refl, sym, ap, ◌∙◌, Bool, true, false, none, some, [],
  ◌∷◌, ◌++◌, arith, append-nil, append_assoc, length, length-append, lookup, insert,
  HasDistinctKeys, All, str_eq_iff,
}
use shorty.Errors.{Err, ok, err, wrap, returns}
use shorty.Model.{UrlRecord}
use shorty.Memory.{Db}
use shorty.Memory.Invariant.{IsFiled, IsWellFormed}
use shorty.File.{
  Codec, new_url_record_from_bytes, read_bytes, drop_last, parse_line, read_urls, read_on, add_line,
  read_urls_from_file, dump_lines,
}

abbrev HasNoNewline : Str → Type 0
HasNoNewline s = All (λ c. c ≢ 10) s

-- The record is written as one line, from which it is read again.
pub record IsCoded (c : Codec) (r : UrlRecord) : Type 0 where
  pub line : Str
  pub marshals : c.marshal r ≡ ok line
  pub one_line : HasNoNewline line
  pub parses : new_url_record_from_bytes c line ≡ returns (ok r)

read_bytes-line :
    (s rest : Str) → HasNoNewline s → read_bytes (s ++ 10 ∷ rest) ≡ ((s ++ 10 ∷ [], true), rest)
unfolding read_bytes
read_bytes-line [] rest h = refl
read_bytes-line (c ∷ s) rest (n, h) = ground (arith, read_bytes-line s rest h)

read_bytes-unterminated :
    (s : Str) (b : ℕ)
    → HasNoNewline (s ++ b ∷ [])
    → read_bytes (s ++ b ∷ []) ≡ ((s ++ b ∷ [], false), [])
unfolding read_bytes
read_bytes-unterminated [] b (h, _) = ground arith
read_bytes-unterminated (d ∷ s) b (n, h) = ground (arith, read_bytes-unterminated s b h)

drop_last-snoc : (s : Str) (c : ℕ) → drop_last (s ++ c ∷ []) ≡ s
drop_last-snoc [] c = refl
drop_last-snoc (d ∷ []) c = refl
drop_last-snoc (d ∷ e ∷ s) c = ap (λ t. d ∷ t) (drop_last-snoc (e ∷ s) c)

parse_line-line :
    (c : Codec) (s : Str) → parse_line c (s ++ 10 ∷ [], true) ≡ some (new_url_record_from_bytes c s)
unfolding parse_line
parse_line-line c [] = refl
parse_line-line c (b ∷ s) =
    ap (λ t. some (new_url_record_from_bytes c t)) (drop_last-snoc (b ∷ s) 10)

insert-fresh :
    (k : Str) (r : UrlRecord) (db : Db) → lookup k db ≡ none → insert k r db ≡ db ++ (k, r) ∷ []
unfolding lookup insert
insert-fresh k r [] h = refl
insert-fresh k r ((j, v) ∷ db) h = ground (arith, insert-fresh k r db)

lookup-append_none : (j : Str) (xs ys : Db) → lookup j (xs ++ ys) ≡ none → lookup j ys ≡ none
unfolding lookup
lookup-append_none j [] ys h = h
lookup-append_none j ((i, v) ∷ xs) ys h = ground (arith, lookup-append_none j xs ys)

lookup-append_fresh :
    (acc : Db) (k : Str) (r : UrlRecord) (db : Db)
    → HasDistinctKeys (acc ++ (k, r) ∷ db)
    → lookup k acc ≡ none
unfolding lookup
lookup-append_fresh [] k r db h = refl
lookup-append_fresh ((j, v) ∷ acc) k r db (fresh, h) = ground (
  arith,
  lookup-append_none j acc ((k, r) ∷ db) fresh,
  str_eq_iff k j,
  str_eq_iff j k,
  lookup-append_fresh acc k r db,
)

module _ (c : Codec) where
  dump_lines-cons :
      (k : Str) (r : UrlRecord) (line : Str) (db : Db)
      → c.marshal r ≡ ok line
      → dump_lines c ((k, r) ∷ db) ≡ (line ++ (10 ∷ (dump_lines c db).0), (dump_lines c db).1)
  unfolding dump_lines add_line
  dump_lines-cons k r line db h = rw h

  read_urls-step :
      (n : ℕ) (s rest : Str) (line : Str × Bool) (r : UrlRecord) (acc : Db)
      → read_bytes s ≡ (line, rest)
      → parse_line c line ≡ some (returns (ok r))
      → read_urls c (suc n) s acc ≡ read_urls c n rest (insert r.short_url r acc)
  unfolding read_urls read_on
  read_urls-step n s rest line r acc h p = rw (h, p) refl

  read_urls-dump_lines :
      (db acc : Db) (n : ℕ)
      → length db < n
      → HasDistinctKeys (acc ++ db)
      → All IsFiled db
      → All (λ e. IsCoded c e.1) db
      → (read_urls c n (dump_lines c db).0 acc ≡ returns (ok (acc ++ db)))
        × ((dump_lines c db).1 ≡ none)
  read_urls-dump_lines [] acc zero lt d f h = absurd (omega arith)
  read_urls-dump_lines [] acc (suc n) lt d f h =
      unfold read_urls read_on dump_lines read_bytes parse_line in
      (ap (λ d. returns (ok d)) (sym (append-nil acc)), refl)
  read_urls-dump_lines (e ∷ db) acc zero lt d f h = absurd (omega arith)
  read_urls-dump_lines ((k, r) ∷ db) acc (suc n) lt d (fk, f) (hk, h) =
      let line = hk.line in
      let rest = (dump_lines c db).0 in
      let added : insert r.short_url r acc ≡ acc ++ (k, r) ∷ [] =
        ap (λ j. insert j r acc) fk ∙ (insert-fresh k r acc (lookup-append_fresh acc k r db d)) in
      let regroup = append_assoc acc ((k, r) ∷ []) db in
      let later = read_urls-dump_lines db (acc ++ (k, r) ∷ []) n (omega arith) (rw regroup d) f h in
      let parsed = parse_line-line c line ∙ ap some hk.parses in
      let step =
        read_urls-step n (line ++ (10 ∷ rest)) rest (line ++ 10 ∷ [], true) r acc
          (read_bytes-line line rest hk.one_line) parsed in
      rw (dump_lines-cons k r line db hk.marshals)
        (step ∙ ap (read_urls c n rest) added ∙ later.0 ∙ ap (λ d. returns (ok d)) regroup, later.1)

  length-dump_lines :
      (db : Db) → All (λ e. IsCoded c e.1) db → length db ≤ length (dump_lines c db).0
  length-dump_lines [] h = omega arith
  length-dump_lines ((k, r) ∷ db) (hk, h) =
      rw (dump_lines-cons k r hk.line db hk.marshals) (
        omega (arith, length-append {0} hk.line (10 ∷ (dump_lines c db).0), length-dump_lines db h))

  -- A dump of a well-formed database in which every record is written as a line that parses back
  -- has no error, and reading the dumped file gives the same database.
  pub read-dump :
      (db : Db)
      → IsWellFormed db
      → All (λ e. IsCoded c e.1) db
      → ((dump_lines c db).1 ≡ none)
        × (read_urls_from_file c (ok (dump_lines c db).0) ≡ returns (ok db))
  unfolding read_urls_from_file
  read-dump db w h =
      let both =
        read_urls-dump_lines db [] (suc (length (dump_lines c db).0))
          (omega (arith, length-dump_lines db h)) w.distinct w.filed h in
      (both.1, both.0)

  parse_line-unterminated :
      (s : Str) (b : ℕ) → parse_line c (s ++ b ∷ [], false) ≡ some (new_url_record_from_bytes c s)
  unfolding parse_line
  parse_line-unterminated [] b = refl
  parse_line-unterminated (d ∷ s) b =
      ap (λ t. some (new_url_record_from_bytes c t)) (drop_last-snoc (d ∷ s) b)

  -- A file of one line without its newline is read without the last byte of the line; where the
  -- bytes that are left do not parse, reading the file fails with their error.
  pub read_unterminated :
      (s : Str) (b : ℕ) (e : Err)
      → HasNoNewline (s ++ b ∷ [])
      → new_url_record_from_bytes c s ≡ returns (err e)
      → read_urls_from_file c (ok (s ++ b ∷ []))
        ≡ returns (err (wrap (str "cannot parse url record") e))
  unfolding read_urls_from_file read_urls read_on
  read_unterminated s b e h p =
      rw (read_bytes-unterminated s b h, parse_line-unterminated s b, p) refl
