-- ===== src/Generators/Tests.antt =====
-- A stand-in for Intn, and RandString with it.
use shorty.Base.{str, ℕ, ◌+◌, ◌≡◌, refl, true, arith, ltb, if◌then◌else◌, length, all}
use shorty.Generators.{rand_string}
use shorty.Generators.Alphabet.{IsIntn, is_alphanumeric, rand_string_lem}

-- The number of the call, while that is in range.
abbrev pub counting : ℕ → ℕ → ℕ
counting n i = if ltb i n then i else 0

pub counting-IsIntn : IsIntn counting
counting-IsIntn n i h = ground arith

rand_string_test : (rand_string counting 4 9).0 ≡ str "9abc"
unfolding rand_string
rand_string_test = refl

rand_string_lem_example :
    (length (rand_string counting 4 9).0 ≡ 4)
    × (all is_alphanumeric (rand_string counting 4 9).0 ≡ true)
    × ((rand_string counting 4 9).1 ≡ 4 + 9)
rand_string_lem_example = rand_string_lem counting counting-IsIntn 4 9
