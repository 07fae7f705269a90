-- ===== src/App/Shutdown.antt =====
-- The end of app.Run (internal/app/app.go): when it returns, and when it waits for ever.
use shorty.Base.{
  ℕ, ◌≡◌, ◌↔◌, ◌≢◌, Bool, refl, ap, true, false, List, [], ◌∷◌, ◌++◌, map, all, any, append_assoc,
  arith, Bool-cases, inl, inr,
}
use shorty.Config.{Config}
use shorty.App.{
  App, waiting, returned, Server, Kind, Phase, listening, serving, failing, finishing, gone,
  is_gone, Moves, Step, signal, listen_fails, listens, shut_down, drained, stalls, block_flushing,
  Queue, running, blocked, quit, refused, draining, stalled, serve_fails, finish_server,
  stop_flushing, receive, context_done, close, Reach, here, next, launch,
}
use shorty.App.Order.{Reach-IsOrderly, is_selecting}

pub append_Reach : {s t u : App} → Reach s t → Reach t u → Reach s u
append_Reach r here = r
append_Reach r (next q st) = next (append_Reach r q) st

-- A server that waits to send its error, or for a request that waits for ever.
abbrev pub is_stuck : Server → Bool
is_stuck p = elim p.phase [ failing ↦ true | refused ↦ true | stalled ↦ true | _ ↦ false ]

-- Run is past its select, and one of the servers is stuck.
pub record IsHung (code : ℕ) (s : App) : Type 0 where
  pub at_wait : s.main ≡ waiting code
  pub stuck : any is_stuck s.servers ≡ true

any-middle :
    (before after : List Server) (x y : Server)
    → is_stuck x ≡ false
    → any is_stuck (before ++ x ∷ after) ≡ true
    → any is_stuck (before ++ y ∷ after) ≡ true
any-middle [] after x y hx h = ground arith
any-middle (z ∷ before) after x y hx h = ground (arith, any-middle before after x y hx)

Moves-stuck :
    {k : Kind} {from to : Phase} {ps qs : List Server}
    → is_stuck (record { kind = k; phase = from }) ≡ false
    → Moves k from to ps qs
    → any is_stuck ps ≡ true
    → any is_stuck qs ≡ true
Moves-stuck not_it m h = rw m.now_is (any-middle m.before m.after _ _ not_it (rw m.was at h))

stuck-ne-gone : (ps : List Server) → any is_stuck ps ≡ true → all is_gone ps ≡ true → ⊥
stuck-ne-gone [] h g = cc
stuck-ne-gone (p ∷ ps) h g = ground (arith, stuck-ne-gone ps)

Step-IsHung : {code : ℕ} {s t : App} → Step s t → IsHung code s → IsHung code t
Step-IsHung signal h = record { at_wait = h.at_wait; stuck = h.stuck }
Step-IsHung (stop_flushing going c) h = record { at_wait = h.at_wait; stuck = h.stuck }
Step-IsHung (block_flushing going) h = record { at_wait = h.at_wait; stuck = h.stuck }
Step-IsHung (listen_fails k ps m) h = record {
  at_wait = h.at_wait;
  stuck = Moves-stuck refl m h.stuck;
}
Step-IsHung (listens k ps m) h = record { at_wait = h.at_wait; stuck = Moves-stuck refl m h.stuck }
Step-IsHung (shut_down k ps c m) h = record {
  at_wait = h.at_wait;
  stuck = Moves-stuck refl m h.stuck;
}
Step-IsHung (drained k ps m) h = record { at_wait = h.at_wait; stuck = Moves-stuck refl m h.stuck }
Step-IsHung (stalls k ps c m) h = record { at_wait = h.at_wait; stuck = Moves-stuck refl m h.stuck }
Step-IsHung (serve_fails k c ps m) h = record {
  at_wait = h.at_wait;
  stuck = Moves-stuck refl m h.stuck;
}
Step-IsHung (finish_server k ps m) h = record {
  at_wait = h.at_wait;
  stuck = Moves-stuck refl m h.stuck;
}
Step-IsHung (receive k from ps at f m) h = cc (at, h.at_wait)
Step-IsHung (context_done at c) h = cc (at, h.at_wait)
Step-IsHung {s = s} (close code at f g) h = absurd (stuck-ne-gone s.servers h.stuck g)

pub Reach-IsHung : {code : ℕ} {s t : App} → Reach s t → IsHung code s → IsHung code t
Reach-IsHung here h = h
Reach-IsHung (next r st) h = Step-IsHung st (Reach-IsHung r h)

-- The loop of the queue that is stuck stays so.
Step-blocked : {s t : App} → Step s t → s.queue ≡ blocked → t.queue ≡ blocked
Step-blocked (stop_flushing going c) h = cc (going, h)
Step-blocked (block_flushing going) h = refl
Step-blocked _ h = h

Reach-blocked : {s t : App} → Reach s t → s.queue ≡ blocked → t.queue ≡ blocked
Reach-blocked here h = h
Reach-blocked (next r st) h = Step-blocked st (Reach-blocked r h)

abbrev retired : Server → Server
retired p = record p { phase = gone }

-- A server that is not stuck ends after the context.
module _ (t : App) (k : Kind) (before after : List Server) (c : t.cancelled ≡ true) where
  abbrev with_phase : Phase → App
  with_phase p = record t { servers = before ++ record { kind = k; phase = p } ∷ after }

  retire_finishing : {s : App} → Reach s (with_phase finishing) → Reach s (with_phase gone)
  retire_finishing r =
      next r
        (finish_server k _ (record { before = before; after = after; was = refl; now_is = refl }))

  retire_draining : {s : App} → Reach s (with_phase draining) → Reach s (with_phase gone)
  retire_draining r =
      retire_finishing (
        next r (drained k _ (record { before = before; after = after; was = refl; now_is = refl })))

  retire_serving : {s : App} → Reach s (with_phase serving) → Reach s (with_phase gone)
  retire_serving r = retire_draining (
      next r
        (shut_down k _ c (record { before = before; after = after; was = refl; now_is = refl })))

  retire :
      {s : App} (p : Phase)
      → is_stuck (record { kind = k; phase = p }) ≡ false
      → Reach s (with_phase p)
      → Reach s (with_phase gone)
  retire failing h r = cc
  retire refused h r = cc
  retire stalled h r = cc
  retire draining h r = retire_draining r
  retire gone h r = r
  retire finishing h r = retire_finishing r
  retire serving h r = retire_serving r
  retire listening h r =
      retire_serving (
        next r (listens k _ (record { before = before; after = after; was = refl; now_is = refl })))

-- All servers end, one after the other.
retire_all :
    (s t : App) (before after : List Server)
    → t.cancelled ≡ true
    → any is_stuck after ≡ false
    → Reach s (record t { servers = before ++ after })
    → Reach s (record t { servers = before ++ map retired after })
retire_all s t before [] c h r = r
retire_all s t before (p ∷ after) c h r =
    let r' = retire t p.kind before after c p.phase (ground arith) r in
    let r'' =
      retire_all s t (before ++ retired p ∷ []) after c (ground arith)
        (rw (append_assoc before (retired p ∷ []) after) r') in
    rw (append_assoc before (retired p ∷ []) (map retired after)) at r''

all-retired : (ps : List Server) → all is_gone (map retired ps) ≡ true
all-retired [] = refl
all-retired (p ∷ ps) = all-retired ps

-- The state that Run returns in.
abbrev returned_from : ℕ → App → App
returned_from code s = record s {
  servers = map retired s.servers;
  queue = quit;
  main = returned code;
  closed = true;
}

-- The loop of the queue ends, if it is not stuck.
end_queue :
    (s t : App) (q : Queue)
    → t.cancelled ≡ true
    → q ≢ blocked
    → Reach s (record t { queue = q })
    → Reach s (record t { queue = quit })
end_queue s t running c h r = next r (stop_flushing refl c)
end_queue s t blocked c h r = absurd (h refl)
end_queue s t quit c h r = r

returns_from :
    {code : ℕ} {s : App}
    → s.main ≡ waiting code
    → s.cancelled ≡ true
    → any is_stuck s.servers ≡ false
    → s.queue ≢ blocked
    → Reach s (returned_from code s)
returns_from {code} {s} at c h going =
    let r = retire_all s s [] s.servers c h here in
    let r' = end_queue s (record s { servers = map retired s.servers }) s.queue c going r in
    next r' (close code at refl (all-retired s.servers))

IsHung-from : {code : ℕ} {s t : App} → IsHung code s → Reach s t → t.main ≡ returned code → ⊥
IsHung-from h r e = cc ((Reach-IsHung r h).at_wait, e)

-- From every state in which Run has left its select, it can return if and only if none of the
-- servers waits to send an error or for a request that waits for ever, and the loop of the queue
-- does not wait for ever for the mutex: then there is a run to a state in which it has returned its
-- code with the storage closed, and otherwise there is none.
pub can_return_iff :
    (cfg : Config) {s : App} {code : ℕ}
    → Reach (launch cfg) s
    → s.main ≡ waiting code
    → ((t : App) × Reach s t × (t.main ≡ returned code) × (t.closed ≡ true))
      ↔ ((any is_stuck s.servers ≡ false) × (s.queue ≢ blocked))
can_return_iff cfg {s} {code} r at =
    let o = Reach-IsOrderly cfg r in
    (
      (λ (t, q, e, closed). (
        elim (Bool-cases (any is_stuck s.servers)) [
          | inl f ↦ absurd (IsHung-from (record { at_wait = at; stuck = f }) q e)
          | inr f ↦ f
        ],
        λ b. cc (Reach-blocked q b, ((Reach-IsOrderly cfg (append_Reach r q)).over closed).0),
      )),
      λ (h, going). (
        returned_from code s,
        returns_from at (o.ended (ap is_selecting at)) h going,
        refl,
        refl,
      ),
    )
