-- ===== src/File/Outcomes.antt =====
-- What Store of the file storage does, also while it shuts down (internal/storage/file/file.go).
use shorty.Base.{Str, ℕ, ◌≡◌, refl, ◌⊎◌, inl, inr, Bool, Option, none, some, if_both}
use shorty.Errors.{Err, Result}
use shorty.Model.{Url}
use shorty.Memory.{Memory, store}
use shorty.File.{File, stored, file_store}

module _ (new_v4 : ℕ → Result Str) (url : Url) (overwrite : Bool) (f : File) where
  -- The Store of the memory succeeded, and this one too; or both failed; or the storage shuts down.
  abbrev pub Outcomes : (Str × Option Err) × File → Type 0
  Outcomes r =
      ((r.0.1 ≡ none)
        × ((store new_v4 url overwrite f.memory).0.1 ≡ none)
        × (r.1.memory ≡ (store new_v4 url overwrite f.memory).1))
      ⊎ (((e : Err) × (r.0.1 ≡ some e)
            × ((d : Err) × ((store new_v4 url overwrite f.memory).0.1 ≡ some d)
                × (r.1.memory ≡ (store new_v4 url overwrite f.memory).1)))
          ⊎ ((e : Err) × (r.0.1 ≡ some e) × (r.1.memory ≡ f.memory)))

  stored-Outcomes :
      (x : (Str × Option Err) × Memory)
      → store new_v4 url overwrite f.memory ≡ x
      → Outcomes (stored f x)
  unfolding stored
  stored-Outcomes ((path, none), m) h = rw h (inl (refl, refl, refl))
  stored-Outcomes ((path, some e), m) h = rw h (inr (inl (_, refl, (e, refl, refl))))

  pub file_store-Outcomes : Outcomes (file_store new_v4 url overwrite f)
  unfolding file_store
  file_store-Outcomes =
      if_both Outcomes f.shutdown _ _ (inr (inr (_, refl, refl))) (stored-Outcomes _ refl)
