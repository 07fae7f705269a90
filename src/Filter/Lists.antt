-- ===== src/Filter/Lists.antt =====
-- Comma separated lists (internal/filter/filter.go: parseSliceFromString).
use shorty.Base.{
  Str, ℕ, zero, suc, ◌≡◌, ◌≢◌, refl, ap, ◌∙◌, List, [], ◌∷◌, ◌++◌, arith, map, All, str_eq-ne,
}
use shorty.Errors.{Result, ok}
use shorty.Filter.{split_comma, trim_left, parse_entities, add_entity, parse_slice_from_string}

-- The items separated by commas.
abbrev pub join_comma : Str → List Str → Str
join_comma s [] = s
join_comma s (t ∷ ts) = s ++ (b',' ∷ join_comma t ts)

abbrev HasNoComma : Str → Type 0
HasNoComma s = All (λ c. c ≢ b',') s

split_comma-last : (s : Str) → HasNoComma s → split_comma s ≡ s ∷ []
unfolding split_comma
split_comma-last [] h = refl
split_comma-last (c ∷ s) (n, h) = ground (arith, split_comma-last s h)

split_comma-item :
    (s rest : Str) → HasNoComma s → split_comma (s ++ (b',' ∷ rest)) ≡ s ∷ split_comma rest
unfolding split_comma
split_comma-item [] rest h = refl
split_comma-item (c ∷ s) rest (n, h) = ground (arith, split_comma-item s rest h)

split_comma-join_comma :
    (s : Str) (ss : List Str)
    → HasNoComma s
    → All HasNoComma ss
    → split_comma (join_comma s ss) ≡ s ∷ ss
split_comma-join_comma s [] h hs = split_comma-last s h
split_comma-join_comma s (t ∷ ts) h (ht, hs) =
    split_comma-item s (join_comma t ts) h ∙ ap (λ l. s ∷ l) (split_comma-join_comma t ts ht hs)

-- Spaces before an item.
abbrev spaces : ℕ → Str
spaces zero = []
spaces (suc n) = b' ' ∷ spaces n

trim_left-spaces : (n : ℕ) (c : ℕ) (s : Str) → c ≢ b' ' → trim_left (spaces n ++ c ∷ s) ≡ c ∷ s
unfolding trim_left
trim_left-spaces zero c s h = ground arith
trim_left-spaces (suc n) c s h = trim_left-spaces n c s h

-- An item of a list: spaces, and then a text that begins with another byte and has no comma.
pub record Item : Type 0 where
  pub indent : ℕ
  pub first : ℕ
  pub others : Str

abbrev pub text : Item → Str
text i = i.first ∷ i.others

abbrev pub padded : Item → Str
padded i = spaces i.indent ++ text i

pub record IsItem (i : Item) : Type 0 where
  pub no_space : i.first ≢ b' '
  pub no_comma : HasNoComma (text i)

module _ {T : Type 0} (parse : Str → Result T) where
  -- Every item parses, in the order of the list.
  abbrev Parses : List Item → List T → Type 0
  Parses [] [] = Unit
  Parses [] (t ∷ ts) = ⊥
  Parses (i ∷ items) [] = ⊥
  Parses (i ∷ items) (t ∷ ts) = (parse (text i) ≡ ok t) × Parses items ts

  parse_entities-Parses :
      (items : List Item) (ts : List T)
      → All IsItem items
      → Parses items ts
      → parse_entities parse (map padded items) ≡ ok ts
  unfolding parse_entities add_entity
  parse_entities-Parses [] [] h p = refl
  parse_entities-Parses [] (t ∷ ts) h p = absurd p
  parse_entities-Parses (i ∷ items) [] h p = absurd p
  parse_entities-Parses (i ∷ items) (t ∷ ts) (hi, h) (pi, p) =
      rw
        (
          trim_left-spaces i.indent i.first i.others hi.no_space,
          pi,
          parse_entities-Parses items ts h p,
        )
        refl

space-ne-comma : ◌≢◌ {A = ℕ} b' ' b','
space-ne-comma = omega arith

spaces-HasNoComma : (n : ℕ) (s : Str) → HasNoComma s → HasNoComma (spaces n ++ s)
spaces-HasNoComma zero s h = h
spaces-HasNoComma (suc n) s h = (space-ne-comma, spaces-HasNoComma n s h)

padded-HasNoComma : (items : List Item) → All IsItem items → All HasNoComma (map padded items)
padded-HasNoComma [] h = tt
padded-HasNoComma (i ∷ items) (hi, h) =
    (spaces-HasNoComma i.indent (text i) hi.no_comma, padded-HasNoComma items h)

join_comma-ne-nil : (n c : ℕ) (s : Str) (ss : List Str) → join_comma (spaces n ++ c ∷ s) ss ≢ []
join_comma-ne-nil zero c s [] e = cc
join_comma-ne-nil zero c s (t ∷ ts) e = cc
join_comma-ne-nil (suc n) c s [] e = cc
join_comma-ne-nil (suc n) c s (t ∷ ts) e = cc

-- A list of one item at least, of items with spaces before them and commas between them, each of
-- which begins with another byte than a space, has no comma, and parses without the spaces, parses
-- to the list of these results.
pub parse_slice_from_string-join :
    {T : Type 0} (parse : Str → Result T) (i : Item) (items : List Item) (ts : List T)
    → All IsItem (i ∷ items)
    → Parses parse (i ∷ items) ts
    → parse_slice_from_string parse (join_comma (padded i) (map padded items)) ≡ ok ts
unfolding parse_slice_from_string
parse_slice_from_string-join parse i items ts h p =
    let apart = padded-HasNoComma (i ∷ items) h in
    rw
      (
        str_eq-ne _ [] (join_comma-ne-nil i.indent i.first i.others (map padded items)),
        split_comma-join_comma (padded i) (map padded items) apart.0 apart.1,
      )
      (parse_entities-Parses parse (i ∷ items) ts h p)
