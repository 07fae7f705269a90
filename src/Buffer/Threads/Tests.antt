-- ===== src/Buffer/Threads/Tests.antt =====
-- Runs of the goroutines around a queue that flushes at two elements.
use shorty.Base.{ℕ, ◌≡◌, refl, true, [], ◌∷◌}
use shorty.Buffer.{FlusherConfig, new_flusher}
use shorty.Buffer.Threads.{System, Reach, here, next, enter, init, flushing}
use shorty.Buffer.Threads.Conservation.{IsConserved, Reach-IsConserved}
use shorty.Buffer.Threads.Deadlock.{IsStuck, SameQueue, deadlock_reachable, late_push_lost}

abbrev two : FlusherConfig
two = record { flush_size = 2; alloc_size = 2 }

abbrev entered : System ℕ
entered = record (init two) { entered = 5 ∷ [] }

path_to_entered : Reach (init two) entered
unfolding init new_flusher
path_to_entered = next here (enter 5 refl)

Reach-IsConserved_example : IsConserved entered
Reach-IsConserved_example = Reach-IsConserved two path_to_entered

deadlock_reachable_example :
    (s : System ℕ) × Reach (init two) s
    × IsStuck s
    × (s.cancelled ≡ true)
    × (s.flusher.shutdown ≡ true)
    × (s.loop ≡ flushing true)
    × (s.flushed ≡ (5 ∷ 6 ∷ []) ∷ [])
    × (s.flusher.buf ≡ 7 ∷ 8 ∷ [])
    × ((t : System ℕ) → Reach s t → SameQueue s t)
deadlock_reachable_example = deadlock_reachable two (5 ∷ []) (7 ∷ []) 6 8 refl refl

late_push_lost_case :
    (s : System ℕ) × Reach (init two) s
    × (s.accepted ≡ 5 ∷ [])
    × ((t : System ℕ) → Reach s t → t.flushed ≡ [])
late_push_lost_case = late_push_lost two 5
