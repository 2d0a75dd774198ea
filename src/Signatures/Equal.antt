-- ===== src/Signatures/Equal.antt =====
-- `_diff_signatures` of evals/runner.py: when there are no differences.
use postgre_data_migration_a.Prelude.{
  true, List, [], ◌∷◌, ◌++◌, ◌≡◌, ◌≢◌, ◌↔◌, refl, ap, ◌∙◌, inl, inr, arith, Text, same_iff,
  same_texts, member, All, Bool-cases,
}
use postgre_data_migration_a.Signatures.{
  Signature, is_before, insert_text, sorted, minus, both, tables, columns_of, tables_line,
  table_lines, common_lines, diff_signatures,
}

insert_text-some : (t : Text) (ts : List Text) → insert_text t ts ≢ []
unfolding insert_text
insert_text-some t [] e = cc e
insert_text-some t (u ∷ us) e = elim (Bool-cases (is_before t u)) [
  | inl before ↦ let bad : t ∷ u ∷ us ≡ [] = rw before at e in cc bad
  | inr later ↦ let bad : u ∷ insert_text t us ≡ [] = rw later at e in cc bad
]

pub sorted-nil : (ts : List Text) → sorted ts ≡ [] → ts ≡ []
unfolding sorted
sorted-nil [] e = refl
sorted-nil (t ∷ ts) e = absurd (insert_text-some t (sorted ts) e)

insert_text-All :
    (P : Text → Type 0) (t : Text) (ts : List Text) → P t → All P ts → All P (insert_text t ts)
unfolding insert_text
insert_text-All P t [] h hs = (h, tt)
insert_text-All P t (u ∷ us) h hs = elim (Bool-cases (is_before t u)) [
  | inl before ↦ rw before (h, hs)
  | inr later ↦ rw later (hs.0, insert_text-All P t us h hs.1)
]

All-insert_text :
    (P : Text → Type 0) (t : Text) (ts : List Text) → All P (insert_text t ts) → P t × All P ts
unfolding insert_text
All-insert_text P t [] h = h
All-insert_text P t (u ∷ us) h = elim (Bool-cases (is_before t u)) [
  | inl before ↦ rw before at h
  | inr later ↦
      let split : P u × All P (insert_text t us) = rw later at h in
      let rest = All-insert_text P t us split.1 in (rest.0, (split.0, rest.1))
]

sorted-All : (P : Text → Type 0) (ts : List Text) → All P ts → All P (sorted ts)
unfolding sorted
sorted-All P [] h = tt
sorted-All P (t ∷ ts) h = insert_text-All P t (sorted ts) h.0 (sorted-All P ts h.1)

pub All-sorted : (P : Text → Type 0) (ts : List Text) → All P (sorted ts) → All P ts
unfolding sorted
All-sorted P [] h = tt
All-sorted P (t ∷ ts) h =
    let both = All-insert_text P t (sorted ts) h in (both.0, All-sorted P ts both.1)

-- Every text of the list is one of the others.
abbrev pub Within : List Text → List Text → Type 0
Within ts us = All (λ t. member t us ≡ true) ts

pub minus-Within : (ts us : List Text) → minus ts us ≡ [] → Within ts us
unfolding minus
minus-Within [] us e = tt
minus-Within (t ∷ ts) us e = elim (Bool-cases (member t us)) [
  | inl here ↦ (here, minus-Within ts us (rw here at e))
  | inr missing ↦ let bad : t ∷ minus ts us ≡ [] = rw missing at e in cc bad
]

Within-minus : (ts us : List Text) → Within ts us → minus ts us ≡ []
unfolding minus
Within-minus [] us h = refl
Within-minus (t ∷ ts) us h = rw h.0 (Within-minus ts us h.1)

both-Within : (P : Text → Type 0) (ts us : List Text) → Within ts us → All P (both ts us) → All P ts
unfolding both
both-Within P [] us h k = tt
both-Within P (t ∷ ts) us h k =
    let split : P t × All P (both ts us) = rw (h.0) at k in
    (split.0, both-Within P ts us h.1 split.1)

both-All : (P : Text → Type 0) (ts us : List Text) → All P ts → All P (both ts us)
unfolding both
both-All P [] us h = tt
both-All P (t ∷ ts) us h = elim (Bool-cases (member t us)) [
  | inl here ↦ rw here (h.0, both-All P ts us h.1)
  | inr missing ↦ rw missing (both-All P ts us h.1)
]

pub same_texts_iff : (ts us : List Text) → (same_texts ts us ≡ true) ↔ (ts ≡ us)
same_texts_iff [] [] = ground arith
same_texts_iff [] (u ∷ us) = ground arith
same_texts_iff (t ∷ ts) [] = ground arith
same_texts_iff (t ∷ ts) (u ∷ us) = ground (arith, same_iff t u, same_texts_iff ts us)

-- The table has the same columns in both, in the same order.
abbrev pub SameColumns : Signature → Signature → Text → Type 0
SameColumns ref other table = columns_of table ref ≡ columns_of table other

append-nil_left : (xs ys : List Text) → xs ++ ys ≡ [] → (xs ≡ []) × (ys ≡ [])
append-nil_left [] ys e = (refl, e)
append-nil_left (x ∷ xs) ys e = cc e

table_lines-nil :
    (a b table : Text) (ref other : List Text) → table_lines a b table ref other ≡ [] → ref ≡ other
table_lines-nil a b table ref other e = elim (Bool-cases (same_texts ref other)) [
  | inl equal ↦ (same_texts_iff ref other).0 equal
  | inr differ ↦ let bad = rw differ at e in cc bad
]

nil-table_lines :
    (a b table : Text) (ref other : List Text) → ref ≡ other → table_lines a b table ref other ≡ []
nil-table_lines a b table ref other e =
    let equal : same_texts ref other ≡ true = (same_texts_iff ref other).1 e in rw equal refl

common_lines-nil :
    (a b : Text) (ref other : Signature) (ts : List Text)
    → common_lines a b ref other ts ≡ []
    → All (SameColumns ref other) ts
unfolding common_lines
common_lines-nil a b ref other [] e = tt
common_lines-nil a b ref other (t ∷ ts) e =
    let parts = append-nil_left (table_lines a b t (columns_of t ref) (columns_of t other)) _ e in
    (
      table_lines-nil a b t (columns_of t ref) (columns_of t other) parts.0,
      common_lines-nil a b ref other ts parts.1,
    )

nil-common_lines :
    (a b : Text) (ref other : Signature) (ts : List Text)
    → All (SameColumns ref other) ts
    → common_lines a b ref other ts ≡ []
unfolding common_lines
nil-common_lines a b ref other [] h = refl
nil-common_lines a b ref other (t ∷ ts) h =
    ap (λ l. l ++ common_lines a b ref other ts)
      (nil-table_lines a b t (columns_of t ref) (columns_of t other) h.0)
    ∙ nil-common_lines a b ref other ts h.1

tables_line-nil : (text : Text) (ts : List Text) → tables_line text ts ≡ [] → ts ≡ []
tables_line-nil text [] e = refl
tables_line-nil text (t ∷ ts) e = cc e

-- The same tables, with the same columns in the same order.
abbrev pub SameStructure : Signature → Signature → Type 0
SameStructure ref other =
    Within (tables ref) (tables other)
    × (Within (tables other) (tables ref) × All (SameColumns ref other) (tables ref))

no_differences :
    (a b : Text) (ref other : Signature)
    → diff_signatures a ref b other ≡ []
    → SameStructure ref other
unfolding diff_signatures
no_differences a b ref other e =
    let one = append-nil_left (tables_line _ (sorted (minus (tables ref) (tables other)))) _ e in
    let two =
      append-nil_left (tables_line _ (sorted (minus (tables other) (tables ref)))) _ one.1 in
    let left =
      minus-Within (tables ref) (tables other) (sorted-nil _ (tables_line-nil _ _ one.0)) in
    let right =
      minus-Within (tables other) (tables ref) (sorted-nil _ (tables_line-nil _ _ two.0)) in
    let common =
      All-sorted (SameColumns ref other) (both (tables ref) (tables other))
        (common_lines-nil a b ref other _ two.1) in
    (left, (right, both-Within (SameColumns ref other) (tables ref) (tables other) left common))

same_differences :
    (a b : Text) (ref other : Signature)
    → SameStructure ref other
    → diff_signatures a ref b other ≡ []
unfolding diff_signatures sorted
same_differences a b ref other h =
    let common = nil-common_lines a b ref other (sorted (both (tables ref) (tables other))) (
      sorted-All (SameColumns ref other) (both (tables ref) (tables other))
        (both-All (SameColumns ref other) (tables ref) (tables other) h.1.1)) in
    rw
      (Within-minus (tables ref) (tables other) h.0, Within-minus (tables other) (tables ref) h.1.0)
      common

-- Two deployments have no differences exactly if they have the same tables, each with the same
-- columns in the same order, whatever the two are called.
pub diff_signatures-SameStructure :
    (ref_env other_env : Text) (ref other : Signature)
    → (diff_signatures ref_env ref other_env other ≡ []) ↔ SameStructure ref other
diff_signatures-SameStructure ref_env other_env ref other =
    (no_differences ref_env other_env ref other, same_differences ref_env other_env ref other)
