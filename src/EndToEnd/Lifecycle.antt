-- ===== src/EndToEnd/Lifecycle.antt =====
-- A link from its POST to its deletion, through the whole HTTP server over the in-memory storage
-- (internal/http/server, internal/auth, internal/services/shortener, internal/storage/memory).
pub mod Tests
use shorty.Base.{
  Str, str, ℕ, ◌≡◌, ◌<◌, ◌+◌, ◌^◌, refl, ap, sym, ◌∙◌, false, Option, none, [], ◌∷◌, str_eq_refl,
  lookup,
}
use shorty.Errors.{Err, Result, ok, err, model_err, deleted}
use shorty.Model.{User, new_with_id}
use shorty.Memory.{Memory, memory_storage}
use shorty.Memory as M
use shorty.Auth.{Claims, default_jwt_cookie_expiration}
use shorty.Auth.Sessions.{session_kept}
use shorty.Resolver.Paths.{resolve-eq-get}
use shorty.Shortener.{ParsedUrl, World, shorten, get_served_url, delete_batch, flush_round}
use shorty.Shortener.Shortening.{IsShortened, shorten-IsShortened}
use shorty.Shortener.Deletion.{delete_batch_queued}
use shorty.Shortener.Queue.{flusher-shorten}
use shorty.Http.Writer.{Wire, Encoder, set_header, write_header}
use shorty.Http.Replies.{run, answer_resolve, resolve_code, answer_delete_batch}
use shorty.Http.Server.{Parts, HttpRequest, response_status, wrapped, serve_http}
use shorty.Http.Server.Posting.{created_response, posted, run_status, without_cookie}
use shorty.Http.Server.Following.{serve_get, serve_delete}
use shorty.EndToEnd.Requests.{IsPost, IsGet, IsDelete, Works, same_link, same_path}
use shorty.EndToEnd.Deletion.{is_owner, get-delete_batch}
use shorty.EndToEnd.Ownership.{path_bytes, resolve_path, owner_path}

abbrev over_memory : (ℕ → Result Str) → Parts Memory → Parts Memory
over_memory new_v4 q = record q { st = memory_storage new_v4 }

-- A client and compressors at which the status of a response is looked at.
abbrev net_write : Wire → Str → ℕ × Option Err
net_write w b = (0, none)

abbrev encoder : Encoder
encoder = record { emit = λ e writes b. b; trailer = λ e writes. str "" }

abbrev accept_encoding : Str
accept_encoding = str ""

module _ (new_v4 : ℕ → Result Str) (q : Parts Memory) where
  abbrev p : Parts Memory
  p = over_memory new_v4 q

  abbrev posted_state : User → Str → World Memory → World Memory
  posted_state user url w = (shorten p.st p.intn p.svc p.parse user url w).1

  module _ (works : Works p) (user : User) (url path : Str) (w : World Memory)
      (i : IsShortened p.st p.intn p.svc p.parse user url
        (get_served_url p.svc path)
        (posted_state user url w).store)
      (same : i.path ≡ path) where
    got :
        (r : HttpRequest) (n : ℕ)
        → IsGet p r path
        → (serve_http p r (posted_state user url w) n).0
          ≡ wrapped (run (set_header (str "Location") i.parsed.text ∷ write_header 307 ∷ []))
    unfolding answer_resolve
    got r n g =
        rw
          (serve_get p r (posted_state user url w) n works.generates (b'/' ∷ i.path) g.found
            (g.at ∙ ap (λ k. b'/' ∷ k) (sym same)))
          (ap (λ o. wrapped (answer_resolve o))
            (resolve_path new_v4 p.intn p.svc p.parse works.range i))

    -- The state after a DeleteBatch of the path by its user, and the next round of the queue.
    abbrev deleted_state : ℕ → World Memory
    deleted_state now =
        flush_round p.st
          (delete_batch now (new_with_id user.id) (path ∷ []) (posted_state user url w)).1

    gone :
        (now : ℕ)
        → w.flusher.shutdown ≡ false
        → w.flusher.buf ≡ []
        → (M.get path (deleted_state now).store).0 ≡ err (model_err deleted)
    gone now open_ empty =
        let same_queue = flusher-shorten p.st p.intn p.svc p.parse user url w in
        let owned =
          ap (λ k. is_owner user.id (lookup k (posted_state user url w).store.db)) (sym same)
          ∙ owner_path new_v4 p.intn p.svc p.parse works.range i in
        get-delete_batch new_v4 now (new_with_id user.id) path [] (posted_state user url w) path
          refl (ap (λ f. f.shutdown) same_queue ∙ open_) (ap (λ f. f.buf) same_queue ∙ empty)
        ∙ rw (str_eq_refl path, owned) refl

    got_gone :
        (now : ℕ) (r : HttpRequest) (n : ℕ)
        → w.flusher.shutdown ≡ false
        → w.flusher.buf ≡ []
        → IsGet p r path
        → (serve_http p r (deleted_state now) n).0 ≡ wrapped (run (write_header 410 ∷ []))
    unfolding answer_resolve resolve_code
    got_gone now r n open_ empty g =
        let bytes = rw same at (path_bytes new_v4 p.intn p.svc p.parse works.range i) in
        rw
          (
            serve_get p r (deleted_state now) n works.generates (b'/' ∷ path) g.found g.at,
            resolve-eq-get M.get path (deleted_state now).store bytes,
            gone now open_ empty,
          )
          refl

  -- Let the parts work, let chi lead the requests to their handlers, let the queue be empty and not
  -- shutting down, and let a POST of a URL without a cookie be answered by 201 with the cookie of a
  -- token that was signed and a short URL, and let the token's expiry fit into 63 bits of
  -- nanoseconds. Then the URL of its body parses, and a GET of the path is redirected to the text
  -- of the parsed URL; a DeleteBatch of the path with this cookie, before the token expires, is
  -- accepted; and after the next round of the queue a GET of the path is answered by 410.
  pub link_life :
      (post get_ delete get_again : HttpRequest) (url tok path : Str) (w : World Memory)
      (n k l m : ℕ)
      → Works p
      → w.flusher.shutdown ≡ false
      → w.flusher.buf ≡ []
      → (c : Claims) → p.auth.signed_string p.secret c ≡ ok tok
      → post.now + default_jwt_cookie_expiration < 2 ^ 63
      → IsPost p post url
      → (serve_http p post w n).0 ≡ created_response p.cookie_text tok (get_served_url p.svc path)
      → IsGet p get_ path
      → IsDelete p delete tok path
      → delete.now < p.auth.numeric_date (post.now + default_jwt_cookie_expiration)
      → IsGet p get_again path
      → (u : ParsedUrl) × (p.parse url ≡ ok u)
        × ((serve_http p get_ (serve_http p post w n).1 k).0
            ≡ wrapped (run (set_header (str "Location") u.text ∷ write_header 307 ∷ [])))
        × ((serve_http p delete (serve_http p post w n).1 l).0
            ≡ wrapped (run (write_header 202 ∷ [])))
        × ((serve_http p get_again
              (flush_round p.st (serve_http p delete (serve_http p post w n).1 l).1)
              m).0
            ≡ wrapped (run (write_header 410 ∷ [])))
  unfolding answer_delete_batch
  link_life post get_ delete get_again url tok path w n k l m works open_ empty c is_signed soon
        is_post response is_get is_delete early is_get_again =
      let status =
        ap (response_status net_write encoder accept_encoding) response
        ∙ run_status net_write encoder accept_encoding _ in
      let (at, done) =
        posted net_write encoder accept_encoding p post w n url works.generates works.is_library
          works.signs is_post.found is_post.found_below is_post.no_cookie is_post.read status in
      let (same_tok, same_short) =
        same_link p.svc p.cookie_text tok path done.tok done.short
          (λ e. works.cookies done.tok tok _ c done.signed is_signed e)
          (sym response ∙ done.response) in
      let i =
        shorten-IsShortened p.st p.intn p.svc p.parse done.user url (get_served_url p.svc path) w
          (rw same_short at done.shortened) in
      let same = same_path p.svc p.cookie_text i.path path (sym i.served) in
      let made =
        ap (λ (c : Result (User × Str) × ℕ). c.0)
          (without_cookie net_write encoder accept_encoding p post.now at none refl)
        ∙ done.made
        ∙ ap (λ t. ok (done.user, t)) same_tok in
      let kept = λ (c : ℕ).
        (session_kept p.auth works.is_library p.secret post.now delete.now none at c done.user tok
          made (rw same_tok at done.full) soon early).1 in
      let deleted_ =
        serve_delete p delete (posted_state done.user url w) l works.generates tok is_delete.body
          (new_with_id done.user.id) (path ∷ []) is_delete.found is_delete.found_below
          is_delete.cookie kept is_delete.json is_delete.read is_delete.decoded in
      let queue = flusher-shorten p.st p.intn p.svc p.parse done.user url w in
      let accepted =
        delete_batch_queued delete.now (new_with_id done.user.id) (posted_state done.user url w)
          path [] refl (ap (λ f. f.shutdown) queue ∙ open_) in
      rw done.state (
        i.parsed,
        i.parses,
        got works done.user url path w i same get_ k is_get,
        rw (deleted_.0, accepted.0) refl,
        rw deleted_.1 (
            got_gone works done.user url path w i same delete.now get_again m open_ empty
              is_get_again),
      )
