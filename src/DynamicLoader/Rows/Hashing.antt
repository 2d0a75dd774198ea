-- ===== src/DynamicLoader/Rows/Hashing.antt =====
-- The text that the row hash is taken of, against the comment on U+001F in the source.
use postgre_data_migration_a.Prelude.{
  ℕ, Bool, true, not, List, [], ◌∷◌, ◌++◌, ◌≡◌, refl, ap, arith, all, All, length, Text, ◌==◌,
  append_assoc,
}
use postgre_data_migration_a.DynamicLoader.Rows.{join_cells}

abbrev pub separator : ℕ
separator = 0x1f

-- No separator in the cell.
abbrev pub is_free : Text → Bool
is_free c = all (λ d. not (d == separator)) c

split_unique :
    (c d u v : Text)
    → is_free c ≡ true
    → is_free d ≡ true
    → c ++ separator ∷ u ≡ d ++ separator ∷ v
    → (c ≡ d) × (u ≡ v)
split_unique [] [] u v hc hd e = (refl, cc)
split_unique [] (y ∷ d) u v hc hd e =
    let same_y : separator ≡ y = cc e in absurd (ground (arith, hd, same_y))
split_unique (x ∷ c) [] u v hc hd e =
    let same_x : x ≡ separator = cc e in absurd (ground (arith, hc, same_x))
split_unique (x ∷ c) (y ∷ d) u v hc hd e =
    let same_x : x ≡ y = cc e in
    let rest : c ++ separator ∷ u ≡ d ++ separator ∷ v = cc e in
    let both = split_unique c d u v (ground (arith, hc)) (ground (arith, hd)) rest in
    (cc (same_x, both.0), both.1)

-- Rows of the same width whose cells have no U+001F are joined to different texts if they differ.
pub join_cells-inj :
    (xs ys : List Text)
    → length xs ≡ length ys
    → All (λ c. is_free c ≡ true) xs
    → All (λ c. is_free c ≡ true) ys
    → join_cells xs ≡ join_cells ys
    → xs ≡ ys
unfolding join_cells
join_cells-inj [] [] w hx hy e = refl
join_cells-inj [] (y ∷ ys) w hx hy e = absurd (omega (arith, w))
join_cells-inj (x ∷ xs) [] w hx hy e = absurd (omega (arith, w))
join_cells-inj (x ∷ []) (y ∷ []) w hx hy e = ap (λ c. c ∷ []) e
join_cells-inj (x ∷ []) (y ∷ z ∷ ys) w hx hy e = absurd (omega (arith, w))
join_cells-inj (x ∷ z ∷ xs) (y ∷ []) w hx hy e = absurd (omega (arith, w))
join_cells-inj (x ∷ x' ∷ xs) (y ∷ y' ∷ ys) w hx hy e =
    let both = split_unique x y _ _ hx.0 hy.0 e in
    let rest = join_cells-inj (x' ∷ xs) (y' ∷ ys) (omega (arith, w)) hx.1 hy.1 both.1 in
    cc (both.0, rest)

-- With a U+001F in a cell, different rows are joined to one text: what stands behind it can move
-- into the next cell.
pub join_cells_collision :
    (a b c : Text)
    → join_cells ((a ++ separator ∷ b) ∷ c ∷ []) ≡ join_cells (a ∷ (b ++ separator ∷ c) ∷ [])
unfolding join_cells
join_cells_collision a b c = append_assoc a (separator ∷ b) (separator ∷ c)
