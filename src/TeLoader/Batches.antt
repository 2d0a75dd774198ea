-- ===== src/TeLoader/Batches.antt =====
-- api/services/te_loader.py: the chunks with their fallback against the INSERT of row by row.
use postgre_data_migration_a.Prelude.{
  ℕ, zero, suc, ◌+◌, ◌≤◌, ◌<◌, Bool, true, false, ◌&&◌, Option, none, some, List, [], ◌∷◌, ◌++◌,
  ◌≡◌, refl, sym, ap, ◌∙◌, inl, inr, arith, length, length-drop, take, drop, take-append-drop, Text,
  Bool-cases, Option-cases, append_assoc, append-nil,
}
use postgre_data_migration_a.TeLoader.Insert.{
  TeRow, TeServer, Loading, settle_row, insert_each, insert_chunk, insert_chunks,
}

-- Each row is taken, behind the ones in front of it.
abbrev pub is_taken : Option Text → Bool
is_taken none = true
is_taken (some reason) = false

unfoldable pub all_taken : TeServer → List TeRow → List TeRow → Bool
all_taken server stored [] = true
all_taken server stored (r ∷ rows) =
    let rest = all_taken server (stored ++ r ∷ []) rows in
    is_taken (server.refuses stored r) && rest

-- The server takes a chunk exactly if it takes its rows one by one: no constraint looks at the rows
-- of a statement together.
abbrev pub IsRowwise : TeServer → Type 0
IsRowwise server =
    (stored rows : List TeRow) → server.takes_all stored rows ≡ all_taken server stored rows

module _ (server : TeServer) (most : ℕ) where
  -- All rows stored, and no error.
  abbrev stores : Loading → List TeRow → Loading
  stores s rows = record s { stored = s.stored ++ rows; inserted = s.inserted + length rows }

  insert_each-append :
      (s : Loading) (n : ℕ) (xs ys : List TeRow)
      → insert_each server most s n (xs ++ ys)
        ≡ insert_each server most (insert_each server most s n xs) (n + length xs) ys
  unfolding insert_each
  insert_each-append s n [] ys = ap (λ k. insert_each server most s k ys) (omega arith)
  insert_each-append s n (x ∷ xs) ys =
      insert_each-append (settle_row most s (n + 1) x (server.refuses s.stored x)) (n + 1) xs ys
      ∙ ap
          (λ k.
            insert_each server most
              (insert_each server most (settle_row most s (n + 1) x (server.refuses s.stored x))
                (n + 1) xs)
              k ys)
          (omega arith)

  same_state :
      (s : Loading) {k m : List TeRow} (i : ℕ) {j : ℕ}
      → k ≡ m
      → i ≡ j
      → (record s { stored = k; inserted = i }) ≡ record s { stored = m; inserted = j }
  same_state s {k} {m} i {j} e f =
      ap (λ l. record s { stored = l; inserted = i }) e
      ∙ ap (λ c. record s { stored = m; inserted = c }) f

  insert_each-stores :
      (s : Loading) (n : ℕ) (rows : List TeRow)
      → all_taken server s.stored rows ≡ true
      → insert_each server most s n rows ≡ stores s rows
  unfolding insert_each all_taken
  insert_each-stores s n [] h = same_state s _ (sym (append-nil s.stored)) (omega arith)
  insert_each-stores s n (x ∷ xs) h = elim (Option-cases (server.refuses s.stored x)) [
    | inl taken ↦
        let later : all_taken server (s.stored ++ x ∷ []) xs ≡ true = rw taken at h in
        rw taken (
          insert_each-stores (settle_row most s (n + 1) x none) (n + 1) xs later
          ∙ same_state s _ (append_assoc s.stored (x ∷ []) xs) (omega arith))
    | inr (reason, refused) ↦ cc (rw refused at h)
  ]

  renumber :
      (s : Loading) (n size : ℕ) (rows : List TeRow)
      → insert_each server most s (n + length (take size rows)) (drop size rows)
        ≡ insert_each server most s (n + size) (drop size rows)
  unfolding insert_each
  renumber s n zero rows = refl
  renumber s n (suc size) [] = refl
  renumber s n (suc size) (x ∷ rows) =
      ap (λ k. insert_each server most s k (drop size rows)) (omega arith)
      ∙ renumber s (n + 1) size rows
      ∙ ap (λ k. insert_each server most s k (drop size rows)) (omega arith)

  module _ (rowwise : IsRowwise server) where
    insert_chunk-insert_each :
        (s : Loading) (n : ℕ) (chunk : List TeRow)
        → insert_chunk server most s n chunk ≡ insert_each server most s n chunk
    unfolding insert_chunk
    insert_chunk-insert_each s n chunk = elim (Bool-cases (all_taken server s.stored chunk)) [
      | inl all_in ↦ rw (rowwise s.stored chunk, all_in) (sym (insert_each-stores s n chunk all_in))
      | inr some_out ↦ rw (rowwise s.stored chunk, some_out)
    ]

    -- If the server takes a chunk exactly if it takes its rows one by one, the chunks with their
    -- savepoints and the fallback end as the INSERT of row by row does: the same rows stored, the
    -- same counters, and the same errors under the same row numbers, whatever the size.
    pub insert_chunks-insert_each :
        (size fuel : ℕ) (s : Loading) (n : ℕ) (rows : List TeRow)
        → 0 < size
        → length rows ≤ fuel
        → insert_chunks server most size fuel s n rows ≡ insert_each server most s n rows
    unfolding insert_chunks
    insert_chunks-insert_each size fuel s n [] pos enough = unfold insert_each in refl
    insert_chunks-insert_each size zero s n (r ∷ rows) pos enough = absurd (omega (arith, enough))
    insert_chunks-insert_each size (suc fuel) s n (r ∷ rows) pos enough =
        let chunk = take size (r ∷ rows) in
        let rest = drop size (r ∷ rows) in
        insert_chunks-insert_each size fuel (insert_chunk server most s n chunk) (n + size) rest pos
          (omega (arith, length-drop size (r ∷ rows), pos, enough))
        ∙ ap (λ l. insert_each server most l (n + size) rest) (insert_chunk-insert_each s n chunk)
        ∙ sym (renumber (insert_each server most s n chunk) n size (r ∷ rows))
        ∙ sym (insert_each-append s n chunk rest)
        ∙ ap (insert_each server most s n) (take-append-drop size (r ∷ rows))
