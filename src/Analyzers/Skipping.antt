-- ===== src/Analyzers/Skipping.antt =====
-- Which files the wrapper leaves out (internal/analyzers/nolint/nolint.go).
use shorty.Base.{
  Str, str, length, any, ltb, ◌==◌, ◌≡◌, refl, ap, ◌∙◌, Bool, true, false, ◌&&◌, ◌||◌, List, [],
  ◌∷◌, arith,
}
use shorty.Analyzers.{has_prefix, is_skipping, is_skipped}

-- The text goes on after this prefix.
abbrev extends : Str → Str → Bool
extends [] [] = false
extends [] (c ∷ text) = true
extends (p ∷ prefix) [] = false
extends (p ∷ prefix) (c ∷ text) = p == c && extends prefix text

-- A comment of the first group asks for the file to be left out.
abbrev pub asks_to_skip : List (List Str) → Bool
asks_to_skip [] = false
asks_to_skip (group ∷ groups) =
    any
      (λ text.
        extends (str "//lint:file-ignore ") text || extends (str "// Code generated by ") text)
      group

has_prefix-extends :
    (prefix text : Str)
    → has_prefix text prefix && ltb (length prefix) (length text) ≡ extends prefix text
has_prefix-extends [] [] = refl
has_prefix-extends [] (c ∷ text) = ground arith
has_prefix-extends (p ∷ prefix) [] = refl
has_prefix-extends (p ∷ prefix) (c ∷ text) = ground (arith, has_prefix-extends prefix text)

abbrev skips : Str → Bool
skips text = extends (str "//lint:file-ignore ") text || extends (str "// Code generated by ") text

either : (a b c d : Bool) → a ≡ c → b ≡ d → a || (b || false) ≡ c || d
either a b c d h k = ground arith

is_skipping_lem : (text : Str) → is_skipping text ≡ skips text
is_skipping_lem text =
    either _ _ _ _ (has_prefix-extends (str "//lint:file-ignore ") text)
      (has_prefix-extends (str "// Code generated by ") text)

skipped_group : (group : List Str) → any is_skipping group ≡ any skips group
skipped_group [] = refl
skipped_group (text ∷ group) =
    ap (λ b. b || any is_skipping group) (is_skipping_lem text)
    ∙ ap (λ b. skips text || b) (skipped_group group)

pub is_skipped_lem : (comments : List (List Str)) → is_skipped comments ≡ asks_to_skip comments
unfolding is_skipped
is_skipped_lem [] = refl
is_skipped_lem (group ∷ groups) = skipped_group group
