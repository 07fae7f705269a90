-- ===== src/App/Order.antt =====
-- What app.Run (internal/app/app.go) has done where it stands.
use shorty.Base.{
  ℕ, ◌+◌, ◌≤◌, ◌≡◌, refl, ap, ◌∙◌, Bool, true, false, List, [], ◌∷◌, ◌++◌, all, arith,
}
use shorty.Config.{Config}
use shorty.App.{
  App, Main, selecting, waiting, returned, Server, Phase, is_gone, Kind, Moves, quit, drained,
  stalls, block_flushing, Step, signal, listen_fails, listens, shut_down, serve_fails,
  finish_server, stop_flushing, receive, context_done, close, Reach, here, next, launch,
}

abbrev code_of : Main → ℕ
code_of selecting = 0
code_of (waiting code) = code
code_of (returned code) = code

abbrev pub is_selecting : Main → Bool
is_selecting selecting = true
is_selecting (waiting code) = false
is_selecting (returned code) = false

abbrev pub is_returned : Main → Bool
is_returned selecting = false
is_returned (waiting code) = false
is_returned (returned code) = true

-- The code is the number of errors received and 1 at most; past its select the context has ended;
-- the storage is closed where Run has returned, and nowhere else, and then all goroutines that Run
-- waits for are over.
pub record IsOrderly (s : App) : Type 0 where
  pub counted : s.received ≡ code_of s.main
  bounded : code_of s.main ≤ 1
  pub ended : is_selecting s.main ≡ false → s.cancelled ≡ true
  pub closed_last : s.closed ≡ is_returned s.main
  pub over : s.closed ≡ true → (s.queue ≡ quit) × (all is_gone s.servers ≡ true)

all-middle :
    (p : Server → Bool) (before after : List Server) (x : Server)
    → all p (before ++ x ∷ after) ≡ true
    → p x ≡ true
all-middle p [] after x h = ground arith
all-middle p (y ∷ before) after x h = all-middle p before after x (ground arith)

-- A server that moves from this phase is gone, if all are.
Moves-gone :
    {k : Kind} {from to : Phase} {ps qs : List Server}
    → Moves k from to ps qs
    → all is_gone ps ≡ true
    → is_gone (record { kind = k; phase = from }) ≡ true
Moves-gone m h = all-middle is_gone m.before m.after _ (rw m.was at h)

-- The invariant stays where one server moves.
move-IsOrderly :
    {k : Kind} {from to : Phase} (s : App) (ps : List Server)
    → is_gone (record { kind = k; phase = from }) ≡ false
    → Moves k from to s.servers ps
    → IsOrderly s
    → IsOrderly (record s { servers = ps })
move-IsOrderly s ps there m o = record {
  counted = o.counted;
  bounded = o.bounded;
  ended = o.ended;
  closed_last = o.closed_last;
  over = λ c. cc (there, Moves-gone m (o.over c).1);
}

Step-IsOrderly : {s t : App} → Step s t → IsOrderly s → IsOrderly t
Step-IsOrderly {s} (listen_fails k ps m) o = move-IsOrderly s ps refl m o
Step-IsOrderly {s} (listens k ps m) o = move-IsOrderly s ps refl m o
Step-IsOrderly {s} (shut_down k ps c m) o = move-IsOrderly s ps refl m o
Step-IsOrderly {s} (drained k ps m) o = move-IsOrderly s ps refl m o
Step-IsOrderly {s} (stalls k ps c m) o = move-IsOrderly s ps refl m o
Step-IsOrderly {s} (serve_fails k c ps m) o = move-IsOrderly s ps refl m o
Step-IsOrderly {s} (finish_server k ps m) o = move-IsOrderly s ps refl m o
Step-IsOrderly {s} signal o = record {
  counted = o.counted;
  bounded = o.bounded;
  ended = λ _. refl;
  closed_last = o.closed_last;
  over = o.over;
}
Step-IsOrderly {s} (block_flushing going) o = record {
  counted = o.counted;
  bounded = o.bounded;
  ended = o.ended;
  closed_last = o.closed_last;
  over = λ c. cc (going, (o.over c).0);
}
Step-IsOrderly {s} (stop_flushing going c) o = record {
  counted = o.counted;
  bounded = o.bounded;
  ended = o.ended;
  closed_last = o.closed_last;
  over = λ c. (refl, (o.over c).1);
}
Step-IsOrderly {s} (receive k from ps at f m) o =
    let not_closed : s.closed ≡ false = o.closed_last ∙ ap is_returned at in
    record {
      counted = ap (λ n. n + 1) (o.counted ∙ ap code_of at);
      bounded = omega arith;
      ended = λ _. refl;
      closed_last = not_closed;
      over = λ c. cc (c, not_closed);
    }
Step-IsOrderly {s} (context_done at c) o =
    let not_closed : s.closed ≡ false = o.closed_last ∙ ap is_returned at in
    record {
      counted = o.counted ∙ ap code_of at;
      bounded = omega arith;
      ended = λ _. c;
      closed_last = not_closed;
      over = λ c. cc (c, not_closed);
    }
Step-IsOrderly {s} (close code at f g) o = record {
  counted = o.counted ∙ ap code_of at;
  bounded = rw at at (o.bounded);
  ended = λ _. o.ended (ap is_selecting at);
  closed_last = refl;
  over = λ _. (f, g);
}

-- In every state that Run can reach, whatever the servers, the queue and the signals do: its code is
-- the number of errors that it received; past its select the context has ended; the storage is
-- closed exactly where Run has returned, and then the loop of the queue and all servers are over.
pub Reach-IsOrderly : (cfg : Config) {s : App} → Reach (launch cfg) s → IsOrderly s
unfolding launch
Reach-IsOrderly cfg here = record {
  counted = refl;
  bounded = omega arith;
  ended = λ h. cc;
  closed_last = refl;
  over = λ h. cc;
}
Reach-IsOrderly cfg (next r st) = Step-IsOrderly st (Reach-IsOrderly cfg r)
