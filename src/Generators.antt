-- ===== src/Generators.antt =====
-- internal/generators/generators.go. `intn n i` is the result of the i-th call of math/rand's Intn,
-- made with the bound n.
pub mod Alphabet
pub mod Tests
use shorty.Base.{Str, str, ℕ, zero, suc, [], ◌∷◌, length, get_or}

abbrev pub alphabet : Str
alphabet = str "0123456789abcdefghijklmnopqrstuvwxyzABCDEFGHIJKLMNOPQRSTUVWXYZ"

-- RandString, with the number of calls of Intn before and after it. An index out of range would
-- panic; Intn does not return one.
unfoldable pub rand_string : (ℕ → ℕ → ℕ) → ℕ → ℕ → Str × ℕ
rand_string intn zero i = ([], i)
rand_string intn (suc n) i =
    let (rest, i') = rand_string intn n (suc i) in
    (get_or alphabet (intn (length alphabet) i) 0 ∷ rest, i')
