-- ===== src/Buffer/Tests.antt =====
-- A queue that flushes at two elements.
use shorty.Base.{ℕ, ◌≡◌, refl, some, [], ◌∷◌}
use shorty.Buffer.{
  FlusherConfig, new_flusher, push, do_flush, push_locked, append_elem, request_flush, flush_list,
}

abbrev two : FlusherConfig
two = record { flush_size = 2; alloc_size = 2 }

push_test :
    ((push 6 (push 5 (new_flusher {T = ℕ} two)).1).1.buf ≡ 5 ∷ 6 ∷ [])
    × ((push 5 (new_flusher {T = ℕ} two)).1.fill_chan ≡ 0)
    × ((push 6 (push 5 (new_flusher {T = ℕ} two)).1).1.fill_chan ≡ 1)
    × ((do_flush (push 6 (push 5 (new_flusher {T = ℕ} two)).1).1).0 ≡ some (5 ∷ 6 ∷ []))
unfolding push push_locked append_elem request_flush new_flusher do_flush flush_list
push_test = (refl, refl, refl, refl)
