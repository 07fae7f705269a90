-- ===== src/Http/Writer/Statuses.antt =====
-- Which status a client gets (internal/http/middleware/logging/logging.go,
-- internal/http/middleware/compress/compress.go).
use shorty.Base.{
  Str, ℕ, ◌≡◌, refl, ap, ◌∙◌, ◌⊎◌, inl, inr, Bool, true, false, Option, none, some, List, [], ◌∷◌,
  arith, if◌then◌else◌, ◌==◌, Bool-cases, if_split, ltb, leb, not, ◌||◌, ◌&&◌,
}
use shorty.Errors.{Err}
use shorty.Http.Writer.{
  Wire, send_header, wire_write_header, LogWriter, flush_header, log_write_header, log_write,
  send_body, log_finish, flushed, Encoding, Encoder, CompressWriter, new_response_wrapper,
  new_log_writer, no_response, compress_write_header, start_encoding, need_compression,
  encode_write, compress_write, close_encoding, compress_close, Action, set_header, write_header,
  write, act, act_all, serve_wrapped,
}

-- The final status for one that was set: 200 for none, 500 for one that is none, and 200 after one
-- that is not final.
abbrev pub sent_code : ℕ → ℕ
sent_code n =
    if n == 0
    then 200
    else if ltb n 100 || ltb 999 n
    then 500
    else if leb 100 n && leb n 199 && not (n == 101)
    then 200
    else n

-- The status set by the last WriteHeader before the first Write, from `n` on.
abbrev pub last_code : List Action → ℕ → ℕ
last_code [] n = n
last_code (set_header k v ∷ actions) n = last_code actions n
last_code (write_header m ∷ actions) n = last_code actions m
last_code (write b ∷ actions) n = n

abbrev writes_body : List Action → Bool
writes_body [] = false
writes_body (set_header k v ∷ actions) = writes_body actions
writes_body (write_header m ∷ actions) = writes_body actions
writes_body (write b ∷ actions) = true

-- The final status, 200 where none is sent yet.
abbrev final_status : Option ℕ → ℕ
final_status none = 200
final_status (some n) = n

-- No header is sent yet, and the status set last is `n`.
record IsPending (n : ℕ) (rw : LogWriter) : Type 0 where
  waiting : rw.wrote_header ≡ false
  unsent : rw.wire.status ≡ none
  code : rw.status ≡ n
  calm : rw.wire.panicked ≡ false

record IsSent (n : ℕ) (rw : LogWriter) : Type 0 where
  wrote : rw.wrote_header ≡ true
  sent : final_status rw.wire.status ≡ n
  calm : rw.wire.panicked ≡ false

flush_header-IsSent :
    (n : ℕ) (rw : LogWriter) → IsPending n rw → IsSent (sent_code n) (flush_header rw)
unfolding flush_header wire_write_header send_header
flush_header-IsSent n rw p = ground arith

flushed-IsPending : (n : ℕ) (rw : LogWriter) → IsPending n rw → IsSent (sent_code n) (flushed rw)
flushed-IsPending n rw p =
    if_split (IsSent (sent_code n)) rw.wrote_header rw (flush_header rw) (λ e. cc (e, p.waiting))
      (λ _. flush_header-IsSent n rw p)

flushed-IsSent : (n : ℕ) (rw : LogWriter) → IsSent n rw → IsSent n (flushed rw)
flushed-IsSent n rw s =
    if_split (IsSent n) rw.wrote_header rw (flush_header rw) (λ _. s) (λ e. cc (e, s.wrote))

send_header-final :
    {n : ℕ} (o : Option ℕ) (w : Wire)
    → final_status o ≡ n
    → w.status ≡ o
    → w.panicked ≡ false
    → ((send_header o 200 w).status ≡ some n) × ((send_header o 200 w).panicked ≡ false)
unfolding send_header
send_header-final none w h at calm = (ap some h, calm)
send_header-final (some m) w h at calm = (at ∙ ap some h, calm)

-- The final status is sent, at the latest, by the first write or at the end.
write_header-final :
    {n : ℕ} (w : Wire)
    → final_status w.status ≡ n
    → w.panicked ≡ false
    → ((wire_write_header 200 w).status ≡ some n) × ((wire_write_header 200 w).panicked ≡ false)
unfolding wire_write_header
write_header-final w h calm = send_header-final w.status w h refl calm

module _ (net_write : Wire → Str → ℕ × Option Err) where
  send_body-IsSent :
      (n : ℕ) (o : Option Err) (b : Str) (rw : LogWriter)
      → IsSent n rw
      → IsSent n (send_body net_write o b rw)
  unfolding send_body
  send_body-IsSent n none b rw s = record {
    wrote = s.wrote;
    sent = ap final_status (write_header-final rw.wire s.sent s.calm).0;
    calm = (write_header-final rw.wire s.sent s.calm).1;
  }
  send_body-IsSent n (some e) b rw s = s

  log_write-IsPending :
      (n : ℕ) (b : Str) (rw : LogWriter)
      → IsPending n rw
      → IsSent (sent_code n) (log_write net_write b rw)
  unfolding log_write
  log_write-IsPending n b rw p =
      send_body-IsSent (sent_code n) (flushed rw).write_err b (flushed rw)
        (flushed-IsPending n rw p)

  log_write-IsSent :
      (n : ℕ) (b : Str) (rw : LogWriter) → IsSent n rw → IsSent n (log_write net_write b rw)
  unfolding log_write
  log_write-IsSent n b rw s =
      send_body-IsSent n (flushed rw).write_err b (flushed rw) (flushed-IsSent n rw s)

  module _ (encoder : Encoder) where
    encode_write-IsPending :
        (n : ℕ) (cw : Option (Encoding × List Str)) (b : Str) (rw : CompressWriter)
        → IsPending n rw.log
        → IsSent (sent_code n) (encode_write net_write encoder cw b rw).log
    unfolding encode_write
    encode_write-IsPending n none b rw p = log_write-IsPending n b rw.log p
    encode_write-IsPending n (some (enc, ws)) b rw p =
        log_write-IsPending n (encoder.emit enc ws b) rw.log p

    encode_write-IsSent :
        (n : ℕ) (cw : Option (Encoding × List Str)) (b : Str) (rw : CompressWriter)
        → IsSent n rw.log
        → IsSent n (encode_write net_write encoder cw b rw).log
    unfolding encode_write
    encode_write-IsSent n none b rw s = log_write-IsSent n b rw.log s
    encode_write-IsSent n (some (enc, ws)) b rw s =
        log_write-IsSent n (encoder.emit enc ws b) rw.log s

    start_encoding-IsPending :
        (n : ℕ) (ct : Option Encoding) (need : Bool) (rw : CompressWriter)
        → IsPending n rw.log
        → IsPending n (start_encoding ct need rw).log
    unfolding start_encoding
    start_encoding-IsPending n none need rw p = p
    start_encoding-IsPending n (some enc) false rw p = p
    start_encoding-IsPending n (some enc) true rw p = record {
      waiting = p.waiting;
      unsent = p.unsent;
      code = p.code;
      calm = p.calm;
    }

    start_encoding-IsSent :
        (n : ℕ) (ct : Option Encoding) (need : Bool) (rw : CompressWriter)
        → IsSent n rw.log
        → IsSent n (start_encoding ct need rw).log
    unfolding start_encoding
    start_encoding-IsSent n none need rw s = s
    start_encoding-IsSent n (some enc) false rw s = s
    start_encoding-IsSent n (some enc) true rw s = record {
      wrote = s.wrote;
      sent = s.sent;
      calm = s.calm;
    }

    act_all-IsSent :
        (actions : List Action) (n : ℕ) (rw : CompressWriter)
        → IsSent n rw.log
        → IsSent n (act_all net_write encoder actions rw).log
    unfolding act_all act compress_write_header log_write_header compress_write
    act_all-IsSent [] n rw s = s
    act_all-IsSent (set_header k v ∷ actions) n rw s =
        act_all-IsSent actions n _ (record { wrote = s.wrote; sent = s.sent; calm = s.calm })
    act_all-IsSent (write_header m ∷ actions) n rw s =
        let s' = start_encoding-IsSent n rw.ct (need_compression rw.log.wire) rw s in
        act_all-IsSent actions n _ (record { wrote = s'.wrote; sent = s'.sent; calm = s'.calm })
    act_all-IsSent (write b ∷ actions) n rw s =
        act_all-IsSent actions n _ (encode_write-IsSent n rw.cw b rw s)

    -- After the actions: the header sent with the status before the first write, or none sent and the
    -- last status kept.
    abbrev After : List Action → ℕ → LogWriter → Type 0
    After actions n log =
        if writes_body actions
        then IsSent (sent_code (last_code actions n)) log
        else IsPending (last_code actions n) log

    act_all-After :
        (actions : List Action) (n : ℕ) (rw : CompressWriter)
        → IsPending n rw.log
        → After actions n (act_all net_write encoder actions rw).log
    unfolding act_all act compress_write_header log_write_header compress_write
    act_all-After [] n rw p = p
    act_all-After (set_header k v ∷ actions) n rw p =
        act_all-After actions n _
          (record { waiting = p.waiting; unsent = p.unsent; code = p.code; calm = p.calm })
    act_all-After (write_header m ∷ actions) n rw p =
        let p' = start_encoding-IsPending n rw.ct (need_compression rw.log.wire) rw p in
        act_all-After actions m _
          (record { waiting = p'.waiting; unsent = p'.unsent; code = refl; calm = p'.calm })
    act_all-After (write b ∷ actions) n rw p =
        act_all-IsSent actions (sent_code n) _ (encode_write-IsPending n rw.cw b rw p)

    close-IsSent :
        (n : ℕ) (cw : Option (Encoding × List Str)) (log : LogWriter)
        → IsSent n log
        → IsSent n (close_encoding net_write encoder cw log)
    unfolding close_encoding
    close-IsSent n none log s = s
    close-IsSent n (some (enc, ws)) log s = log_write-IsSent n (encoder.trailer enc ws) log s

    close-IsPending :
        (n : ℕ) (cw : Option (Encoding × List Str)) (log : LogWriter)
        → IsPending n log
        → IsPending n (close_encoding net_write encoder cw log)
          ⊎ IsSent (sent_code n) (close_encoding net_write encoder cw log)
    unfolding close_encoding
    close-IsPending n none log p = inl p
    close-IsPending n (some (enc, ws)) log p =
        inr (log_write-IsPending n (encoder.trailer enc ws) log p)

    finish-IsSent :
        (actions : List Action) (w : CompressWriter)
        → IsPending 0 w.log
        → IsSent (sent_code (last_code actions 0)) (
            log_finish false
              (compress_close net_write encoder (act_all net_write encoder actions w)))
    unfolding log_finish compress_close
    finish-IsSent actions w p = elim (Bool-cases (writes_body actions)) [
      | inl wrote ↦ flushed-IsSent _ _ (
          close-IsSent _ (act_all net_write encoder actions w).cw _
            (rw wrote at (act_all-After actions 0 w p)))
      | inr silent ↦
          elim (close-IsPending _ (act_all net_write encoder actions w).cw _
            (rw silent at (act_all-After actions 0 w p))) [
              | inl pending ↦ flushed-IsPending _ _ pending
              | inr sent ↦ flushed-IsSent _ _ sent
            ]
    ]

    pub serve_wrapped-panic :
        (accept_encoding : Str)
        → (serve_wrapped net_write encoder accept_encoding [] true).wire.status ≡ some 500
    unfolding serve_wrapped compress_close close_encoding act_all new_response_wrapper
        new_log_writer log_finish wire_write_header send_header
    serve_wrapped-panic accept_encoding = refl

    -- The final status that the client of a handler that returns gets is that of its last
    -- WriteHeader before the first Write, with three exceptions: it is 200 if there is none, or
    -- its code is 0, 500 if it is no valid status otherwise, and 200 if it is an informational one
    -- other than 101, which is not final. net/http never panics at it.
    pub serve_wrapped-status :
        (accept_encoding : Str) (actions : List Action)
        → ((serve_wrapped net_write encoder accept_encoding actions false).wire.status
            ≡ some (sent_code (last_code actions 0)))
          × ((serve_wrapped net_write encoder accept_encoding actions false).wire.panicked ≡ false)
    unfolding serve_wrapped new_response_wrapper new_log_writer
    serve_wrapped-status accept_encoding actions =
        let s =
          finish-IsSent actions (new_response_wrapper (new_log_writer no_response) accept_encoding)
            (record { waiting = refl; unsent = refl; code = refl; calm = refl }) in
        write_header-final _ s.sent s.calm
