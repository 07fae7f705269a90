-- ===== src/Http/Writer.antt =====
-- What the middleware does with a response: the wrappers of internal/http/middleware/logging and
-- internal/http/middleware/compress around net/http's ResponseWriter.
pub mod Statuses
use shorty.Base.{
  Str, str, ℕ, ◌+◌, Bool, true, false, ◌&&◌, ◌||◌, Option, none, some, List, [], ◌∷◌, ◌++◌, GoMap,
  lookup, insert, ltb, leb, not, ◌==◌, str_eq, if◌then◌else◌,
}
use shorty.Errors.{Err, message}

-- net/http's ResponseWriter: the header map, the final status once it is sent, the headers as they
-- were then, and the body. `panicked`: WriteHeader got a code that it panics at.
pub record Wire : Type 0 where
  pub header : GoMap Str
  pub status : Option ℕ
  sent_header : GoMap Str
  pub body : Str
  pub panicked : Bool

abbrev pub no_response : Wire
no_response = record { header = []; status = none; sent_header = []; body = []; panicked = false }

abbrev is_bad_code : ℕ → Bool
is_bad_code n = ltb n 100 || ltb 999 n

-- The responses that net/http sends at once, and after which it still sends a final one.
abbrev is_informational : ℕ → Bool
is_informational n = leb 100 n && leb n 199 && not (n == 101)

send_header : Option ℕ → ℕ → Wire → Wire
send_header (some _) n w = w
send_header none n w =
    if is_bad_code n
    then record w { panicked = true }
    else if is_informational n
    then w
    else record w { status = some n; sent_header = w.header }

-- WriteHeader of net/http; after the final status is sent, a call does nothing.
pub wire_write_header : ℕ → Wire → Wire
unfolding send_header
wire_write_header n w = send_header w.status n w

-- The wrapper of the logging middleware.
pub record LogWriter : Type 0 where
  pub wire : Wire
  pub write_err : Option Err
  pub status : ℕ
  pub size : ℕ
  pub wrote_header : Bool

pub new_log_writer : Wire → LogWriter
new_log_writer w = record { wire = w; write_err = none; status = 0; size = 0; wrote_header = false }

-- flushHeader
pub flush_header : LogWriter → LogWriter
flush_header rw =
    if rw.status == 0
    then record rw { status = 200; wire = wire_write_header 200 rw.wire; wrote_header = true }
    else if ltb rw.status 100 || ltb 999 rw.status
    then record rw {
      wire = wire_write_header rw.status (wire_write_header 500 rw.wire);
      write_err = some (message (str "incorrect response code"));
      wrote_header = true;
    }
    else record rw { wire = wire_write_header rw.status rw.wire; wrote_header = true }

-- WriteHeader: the status is kept for later.
pub log_write_header : ℕ → LogWriter → LogWriter
log_write_header n rw = record rw { status = n }

abbrev flushed : LogWriter → LogWriter
flushed rw = if rw.wrote_header then rw else flush_header rw

module _ (net_write : Wire → Str → ℕ × Option Err) where
  send_body : Option Err → Str → LogWriter → LogWriter
  send_body (some e) b rw = rw
  send_body none b rw =
      let (n, e) = net_write rw.wire b in
      record rw {
        wire = let w = wire_write_header 200 rw.wire in record w { body = rw.wire.body ++ b };
        size = rw.size + n;
        write_err = e;
      }

  -- Write, and that of net/http, which sends 200 first where no final status is sent. What reaches
  -- the client of a write that fails is left out: the body has all of it.
  pub log_write : Str → LogWriter → LogWriter
  unfolding send_body
  log_write b rw = let rw' = flushed rw in send_body rw'.write_err b rw'

-- The end of ServeHTTP, without a panic and after one.
pub log_finish : Bool → LogWriter → LogWriter
log_finish false rw = flushed rw
log_finish true rw =
    if rw.wrote_header then rw else record rw { wire = wire_write_header 500 rw.wire }

pub data Encoding : Type 0 where
  gzip deflate : Encoding

abbrev encoding_name : Encoding → Str
encoding_name gzip = str "gzip"
encoding_name deflate = str "deflate"

-- The wrapper of the compression middleware: the encoding that the client accepts, and the
-- compressing writer, once there is one, with the writes that it got.
pub record CompressWriter : Type 0 where
  pub log : LogWriter
  pub ct : Option Encoding
  pub cw : Option (Encoding × List Str)

-- strings.Contains, for these two names.
unfoldable starts_with : Str → Str → Bool
starts_with [] s = true
starts_with (c ∷ p) [] = false
starts_with (c ∷ p) (d ∷ s) = c == d && starts_with p s

unfoldable contains_str : Str → Str → Bool
contains_str [] p = starts_with p []
contains_str (c ∷ s) p = starts_with p (c ∷ s) || contains_str s p

pub new_response_wrapper : LogWriter → Str → CompressWriter
new_response_wrapper log enc = record {
  log = log;
  ct =
      if contains_str enc (str "gzip")
      then some gzip
      else if contains_str enc (str "deflate")
      then some deflate
      else none;
  cw = none;
}

-- The media types that are compressed.
abbrev is_compressed : Option Str → Bool
is_compressed none = false
is_compressed (some t) = str_eq t (str "application/json") || str_eq t (str "text/plain")

pub need_compression : Wire → Bool
need_compression w = is_compressed (lookup (str "Content-Type") w.header)

abbrev set_wire_header : Str → Str → LogWriter → LogWriter
set_wire_header k v log = record log {
  wire = record log.wire { header = insert k v log.wire.header };
}

start_encoding : Option Encoding → Bool → CompressWriter → CompressWriter
start_encoding none need rw = rw
start_encoding (some enc) false rw = rw
start_encoding (some enc) true rw = record rw {
  log = set_wire_header (str "Content-Encoding") (encoding_name enc) rw.log;
  cw = some (enc, []);
}

-- WriteHeader of the compression wrapper.
pub compress_write_header : ℕ → CompressWriter → CompressWriter
unfolding start_encoding
compress_write_header n rw =
    let started = start_encoding rw.ct (need_compression rw.log.wire) rw in
    record started { log = log_write_header n started.log }

-- What compress/gzip and compress/zlib write when they get one more write, and when they are closed.
pub record Encoder : Type 0 where
  pub emit : Encoding → List Str → Str → Str
  pub trailer : Encoding → List Str → Str

-- What a handler does with its ResponseWriter.
pub data Action : Type 0 where
  set_header : Str → Str → Action
  write_header : ℕ → Action
  write : Str → Action

module _ (net_write : Wire → Str → ℕ × Option Err) (encoder : Encoder) where
  encode_write : Option (Encoding × List Str) → Str → CompressWriter → CompressWriter
  encode_write none b rw = record rw { log = log_write net_write b rw.log }
  encode_write (some (enc, writes)) b rw = record rw {
    log = log_write net_write (encoder.emit enc writes b) rw.log;
    cw = some (enc, writes ++ b ∷ []);
  }

  pub compress_write : Str → CompressWriter → CompressWriter
  unfolding encode_write
  compress_write b rw = encode_write rw.cw b rw

  close_encoding : Option (Encoding × List Str) → LogWriter → LogWriter
  close_encoding none log = log
  close_encoding (some (enc, writes)) log = log_write net_write (encoder.trailer enc writes) log

  pub compress_close : CompressWriter → LogWriter
  unfolding close_encoding
  compress_close rw = close_encoding rw.cw rw.log

  pub act : Action → CompressWriter → CompressWriter
  act (set_header k v) rw = record rw { log = set_wire_header k v rw.log }
  act (write_header n) rw = compress_write_header n rw
  act (write b) rw = compress_write b rw

  pub act_all : List Action → CompressWriter → CompressWriter
  act_all [] rw = rw
  act_all (a ∷ actions) rw = act_all actions (act a rw)

  -- What net/http does once the handler has returned: it sends 200 if no final status is sent.
  abbrev finish_request : LogWriter → LogWriter
  finish_request rw = record rw { wire = wire_write_header 200 rw.wire }

  -- ServeHTTP of the two middlewares around a handler that takes these actions and then returns, or
  -- panics. The compressing writer is closed in both cases.
  pub serve_wrapped : Str → List Action → Bool → LogWriter
  serve_wrapped accept_encoding actions panicking =
      let rw = new_response_wrapper (new_log_writer no_response) accept_encoding in
      finish_request (log_finish panicking (compress_close (act_all actions rw)))
