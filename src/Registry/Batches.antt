-- ===== src/Registry/Batches.antt =====
-- api/services/dynamic_loader.py: the INSERT in chunks against one INSERT of all rows, and rows
-- whose hashes do not repeat.
use mathlib.Core.List.{map-append, reverse-append}
use postgre_data_migration_a.Prelude.{
  ℕ, zero, suc, ◌+◌, ◌≤◌, ◌<◌, true, false, ◌||◌, Option, none, some, List, [], ◌∷◌, ◌++◌, ◌≡◌,
  refl, sym, ap, ◌∙◌, subst, inl, inr, arith, length, length-drop, take, drop, take-append-drop,
  map, reverse, distinct, member, same_refl, same_sym, Text, Bool-cases, Option-cases, append_assoc,
  append-nil,
}
use postgre_data_migration_a.CsvParse.Types.{ColType}
use postgre_data_migration_a.DynamicLoader.Rows.{Row}
use postgre_data_migration_a.Registry.{Server, fits_row, has_hash, insert_rows, insert_chunks}

-- The result of a statement behind one that inserted `n` rows.
abbrev pub behind : ℕ → Option (List Row × ℕ) → Option (List Row × ℕ)
behind n none = none
behind n (some p) = some (p.0, n + p.1)

abbrev continue : (List Row → Option (List Row × ℕ)) → Option (List Row × ℕ) → Option (List Row × ℕ)
continue f none = none
continue f (some p) = behind p.1 (f p.0)

behind-zero : (m : Option (List Row × ℕ)) → behind 0 m ≡ m
behind-zero none = refl
behind-zero (some p) = ap (λ i. some (p.0, i)) (omega arith)

behind-behind : (n k : ℕ) (m : Option (List Row × ℕ)) → behind n (behind k m) ≡ behind (n + k) m
behind-behind n k none = refl
behind-behind n k (some p) = ap (λ i. some (p.0, i)) (omega arith)

continue-kept :
    (f : List Row → Option (List Row × ℕ)) (m : Option (List Row × ℕ))
    → continue f (elim m [ none ↦ none | some p ↦ some (p.0, p.1 + 1) ])
      ≡ elim (continue f m) [ none ↦ none | some p ↦ some (p.0, p.1 + 1) ]
continue-kept f none = refl
continue-kept f (some p) = later (f p.0)
  where
    later :
        (m : Option (List Row × ℕ))
        → behind (p.1 + 1) m ≡ elim (behind p.1 m) [ none ↦ none | some q ↦ some (q.0, q.1 + 1) ]
    later none = refl
    later (some q) = ap (λ i. some (q.0, i)) (omega arith)

chunk_step :
    (inserted : ℕ) (f : List Row → ℕ → Option (List Row × ℕ)) (g : List Row → Option (List Row × ℕ))
    (m : Option (List Row × ℕ))
    → ((p : List Row × ℕ) → f p.0 (inserted + p.1) ≡ behind (inserted + p.1) (g p.0))
    → elim m as (λ _. Option (List Row × ℕ)) [ none ↦ none | some p ↦ f p.0 (inserted + p.1) ]
      ≡ behind inserted (continue g m)
chunk_step inserted f g none h = refl
chunk_step inserted f g (some p) h = h p ∙ sym (behind-behind inserted p.1 (g p.0))

-- None of the rows has a hash that the table or an earlier one of them has.
abbrev pub IsFresh : List Row → List Row → Type 0
IsFresh rows [] = Unit
IsFresh rows (r ∷ new) = (has_hash r.row_hash rows ≡ false) × IsFresh (rows ++ r ∷ []) new

abbrev hashes_of : List Row → List Text
hashes_of rows = map (λ r. r.row_hash) rows

member-append : (t : Text) (xs ys : List Text) → member t (xs ++ ys) ≡ (member t xs || member t ys)
member-append t [] ys = refl
member-append t (x ∷ xs) ys = ground (arith, member-append t xs ys)

distinct-swap : (xs : List Text) (y : Text) → distinct (xs ++ y ∷ []) ≡ distinct (y ∷ xs)
distinct-swap [] y = refl
distinct-swap (x ∷ xs) y =
    ground (arith, distinct-swap xs y, member-append x xs (y ∷ []), same_sym x y)

member-reverse : (t : Text) (xs : List Text) → member t (reverse xs) ≡ member t xs
member-reverse t [] = refl
member-reverse t (x ∷ xs) =
    ap (member t) (reverse-append (x ∷ []) xs)
    ∙ member-append t (reverse xs) (x ∷ [])
    ∙ ground (arith, member-reverse t xs)

distinct-reverse : (xs : List Text) → distinct (reverse xs) ≡ distinct xs
distinct-reverse [] = refl
distinct-reverse (x ∷ xs) =
    ap distinct (reverse-append (x ∷ []) xs)
    ∙ distinct-swap (reverse xs) x
    ∙ ground (arith, member-reverse x xs, distinct-reverse xs)

distinct_middle :
    (xs : List Text) (y : Text) (ys : List Text)
    → distinct (xs ++ y ∷ ys) ≡ true
    → member y xs ≡ false
distinct_middle [] y ys d = refl
distinct_middle (x ∷ xs) y ys d =
    ground (arith, distinct_middle xs y ys, member-append x xs (y ∷ ys), same_sym x y, same_refl y)

has_hash_lem : (h : Text) (rows : List Row) → has_hash h rows ≡ member h (hashes_of rows)
has_hash_lem h [] = refl
has_hash_lem h (r ∷ rows) = ground (arith, has_hash_lem h rows)

IsFresh-distinct :
    (rows new : List Row) → distinct (hashes_of (rows ++ new)) ≡ true → IsFresh rows new
IsFresh-distinct rows [] d = tt
IsFresh-distinct rows (r ∷ new) d = (
  has_hash_lem r.row_hash rows
      ∙ distinct_middle (hashes_of rows) r.row_hash (hashes_of new)
          (subst (λ l. distinct l ≡ true) (map-append (λ (r : Row). r.row_hash) rows (r ∷ new)) d),
  IsFresh-distinct (rows ++ r ∷ []) new
      (subst (λ l. distinct (hashes_of l) ≡ true) (sym (append_assoc rows (r ∷ []) new)) d),
)

-- The rows that the loader inserts are fresh in a table that has no rows.
pub IsFresh-reverse :
    (rows : List Row) → distinct (reverse (hashes_of rows)) ≡ true → IsFresh [] rows
IsFresh-reverse rows d = IsFresh-distinct [] rows (sym (distinct-reverse (hashes_of rows)) ∙ d)

module _ (server : Server) (types : List ColType) where
  insert_rows-append :
      (rows xs ys : List Row)
      → insert_rows server types rows (xs ++ ys)
        ≡ continue (λ rs. insert_rows server types rs ys) (insert_rows server types rows xs)
  unfolding insert_rows
  insert_rows-append rows [] ys = sym (behind-zero (insert_rows server types rows ys))
  insert_rows-append rows (x ∷ xs) ys = elim (Bool-cases (fits_row server types x.values)) [
    | inr bad ↦ rw bad
    | inl good ↦ elim (Bool-cases (has_hash x.row_hash rows)) [
      | inl old ↦ rw (good, old) (insert_rows-append rows xs ys)
      | inr new ↦
          rw (good, new)
            (ap
                (λ (m : Option (List Row × ℕ)). elim m as (λ _. Option (List Row × ℕ)) [
                  | none ↦ none
                  | some p ↦ some (p.0, p.1 + 1)
                ])
                (insert_rows-append (rows ++ x ∷ []) xs ys)
              ∙ sym (continue-kept _ (insert_rows server types (rows ++ x ∷ []) xs)))
    ]
  ]

  split_rows :
      (size : ℕ) (rows new : List Row)
      → insert_rows server types rows new
        ≡ continue
            (λ rs. insert_rows server types rs (drop size new))
            (insert_rows server types rows (take size new))
  split_rows size rows new =
      ap (insert_rows server types rows) (sym (take-append-drop size new))
      ∙ insert_rows-append rows (take size new) (drop size new)

  -- The chunked INSERT of rows ends as one INSERT of them all does, with the same count, errors
  -- included, whatever the size of the chunks, as soon as the fuel is the number of rows.
  pub insert_chunks-insert_rows :
      (size fuel : ℕ) (rows new : List Row) (inserted : ℕ)
      → 0 < size
      → length new ≤ fuel
      → insert_chunks server types size fuel rows new inserted
        ≡ behind inserted (insert_rows server types rows new)
  unfolding insert_chunks
  insert_chunks-insert_rows size fuel rows [] inserted pos enough =
      unfold insert_rows in ap (λ i. some (rows, i)) (omega arith)
  insert_chunks-insert_rows size zero rows (r ∷ new) inserted pos enough =
      absurd (omega (arith, enough))
  insert_chunks-insert_rows size (suc fuel) rows (r ∷ new) inserted pos enough =
      chunk_step inserted
        (λ rows inserted. insert_chunks server types size fuel rows (drop size (r ∷ new)) inserted)
        (λ rows. insert_rows server types rows (drop size (r ∷ new)))
        (insert_rows server types rows (take size (r ∷ new)))
        (λ p.
          insert_chunks-insert_rows size fuel p.0 (drop size (r ∷ new)) (inserted + p.1) pos
            (omega (arith, length-drop size (r ∷ new), pos, enough)))
      ∙ ap (behind inserted) (sym (split_rows size rows (r ∷ new)))

  pub insert_rows-IsFresh :
      (rows new : List Row) {p : List Row × ℕ}
      → IsFresh rows new
      → insert_rows server types rows new ≡ some p
      → p ≡ (rows ++ new, length new)
  unfolding insert_rows
  insert_rows-IsFresh rows [] {p} f e =
      let same_p : (rows, 0) ≡ p = cc e in sym same_p ∙ ap (λ l. (l, 0)) (sym (append-nil rows))
  insert_rows-IsFresh rows (r ∷ new) {p} f e = elim (Bool-cases (fits_row server types r.values)) [
    | inr bad ↦ cc (rw bad at e)
    | inl good ↦ elim (Option-cases (insert_rows server types (rows ++ r ∷ []) new)) [
      | inl stops ↦ cc (rw (good, f.0, stops) at e)
      | inr (q, goes) ↦
          let same_p : some (q.0, q.1 + 1) ≡ some p = rw (good, f.0, goes) at e in
          let same_pair : p ≡ (q.0, q.1 + 1) = cc same_p in
          let same_q = insert_rows-IsFresh (rows ++ r ∷ []) new f.1 goes in
          same_pair
          ∙ ap (λ q. (q.0, q.1 + 1)) same_q
          ∙ ap (λ l. (l, length new + 1)) (append_assoc rows (r ∷ []) new)
          ∙ ap (λ n. (rows ++ r ∷ new, n)) (omega arith)
    ]
  ]
