-- ===== src/CsvParse/Columns/Fresh.antt =====
-- api/services/csv_parse.py: the loop `while name in assigned` of `sanitize_columns`.
use mathlib.Core.List.{append_cancel_left, tail}
use native.Mathlib.Nat.{add-zero}
use native.Mathlib.Numerals.{add-one}
use postgre_data_migration_a.Prelude.{
  ℕ, zero, suc, ◌+◌, ◌-◌, ◌≤◌, ◌<◌, Bool, true, false, ◌&&◌, List, [], ◌∷◌, ◌≡◌, refl, sym, ap, ◌∙◌,
  ◌⊎◌, inl, inr, arith, length, Text, member, same, same_iff, same_sym, same_refl, subst,
  if◌then◌else◌, Bool-cases,
}
use postgre_data_migration_a.Python.Decimal.{str_inj}
use postgre_data_migration_a.CsvParse.Columns.{
  Counter, count_of, set_count, suffixed, fresh, fresh_name,
}

pub suffixed_inj : (base : Text) (m n : ℕ) → suffixed base m ≡ suffixed base n → m ≡ n
suffixed_inj base m n e = str_inj m n (ap tail (append_cancel_left base _ _ e))

-- The name that the loop tries when the counter stands at `c`.
abbrev pub candidate : Text → ℕ → Text
candidate base c = suffixed base (c + 1)

-- The names for the counters 1 to `n` are all assigned.
unfoldable pub taken : Text → List Text → ℕ → Bool
taken base xs zero = true
taken base xs (suc n) = member (candidate base (suc n)) xs && taken base xs n

remove : Text → List Text → List Text
remove t [] = []
remove t (x ∷ xs) = if same t x then xs else x ∷ remove t xs

length-remove :
    (t : Text) (xs : List Text) → member t xs ≡ true → length xs ≡ suc (length (remove t xs))
unfolding remove
length-remove t [] h = cc
length-remove t (x ∷ xs) h = ground (arith, length-remove t xs)

member-remove :
    (t u : Text) (xs : List Text)
    → same u t ≡ false
    → member u xs ≡ true
    → member u (remove t xs) ≡ true
unfolding remove
member-remove t u [] d h = cc
member-remove t u (x ∷ xs) d h =
    ground (arith, member-remove t u xs d, same_iff t x, same_iff u x, same_iff u t)

module _ (base : Text) where
  candidate-ne : (m n : ℕ) → m < n → same (candidate base m) (candidate base n) ≡ false
  candidate-ne m n h = ground (
    arith,
    same_iff (candidate base m) (candidate base n),
    λ (e : candidate base m ≡ candidate base n). suffixed_inj base (m + 1) (n + 1) e,
  )

  taken-remove :
      (xs : List Text) (k n : ℕ)
      → n < k
      → taken base xs n ≡ true
      → taken base (remove (candidate base k) xs) n ≡ true
  unfolding taken
  taken-remove xs k zero h t = refl
  taken-remove xs k (suc n) h t = ground (
    arith,
    candidate-ne (suc n) k h,
    member-remove (candidate base k) (candidate base (suc n)) xs,
    taken-remove xs k n (omega arith),
  )

  -- Different names are assigned, so there are at least as many assigned names.
  pub taken-le-length : (xs : List Text) (n : ℕ) → taken base xs n ≡ true → n ≤ length xs
  unfolding taken
  taken-le-length xs zero h = omega arith
  taken-le-length xs (suc n) h = ground (
    arith,
    length-remove (candidate base (suc n)) xs,
    taken-le-length (remove (candidate base (suc n)) xs) n,
    taken-remove xs (suc n) n (omega arith),
  )

  pub taken-cons :
      (x : Text) (xs : List Text) (n : ℕ) → taken base xs n ≡ true → taken base (x ∷ xs) n ≡ true
  unfolding taken
  taken-cons x xs zero h = refl
  taken-cons x xs (suc n) h = ground (arith, taken-cons x xs n)

-- What one run of the loop gives, for the counter and the name that it starts from.
pub record IsFresh (f : ℕ) (assigned : List Text) (base : Text) (counter : Counter) (name : Text)
    (out : Text × Counter) : Type 0 where
  pub free :
      (member out.0 assigned ≡ false) ⊎ (taken base assigned (count_of base counter + f) ≡ true)
  pub others : (b : Text) → same base b ≡ false → count_of b out.1 ≡ count_of b counter
  pub shape :
      ((out.0 ≡ name) × (out.1 ≡ counter))
      ⊎ ((out.0 ≡ candidate base (count_of base out.1))
          × (taken base assigned (count_of base out.1 - 1) ≡ true)
          × (0 < count_of base out.1))

count_of-set_count :
    (base b : Text) (n : ℕ) (l : Counter)
    → count_of b (set_count base n l) ≡ (if same b base then n else count_of b l)
unfolding count_of set_count
count_of-set_count base b n l = refl

taken-suc :
    (base : Text) (xs : List Text) (n : ℕ)
    → member (candidate base (n + 1)) xs ≡ true
    → taken base xs n ≡ true
    → taken base xs (n + 1) ≡ true
unfolding taken
taken-suc base xs n h t =
    subst (λ m. member (candidate base m) xs ≡ true → taken base xs m ≡ true) (sym (add-one n))
      (λ k. rw k t) h

taken_head :
    (base x : Text) (xs : List Text) (n : ℕ)
    → x ≡ candidate base n
    → 0 < n
    → taken base xs (n - 1) ≡ true
    → taken base (x ∷ xs) n ≡ true
unfolding taken
taken_head base x xs zero e h t = refl
taken_head base x xs (suc m) e h t =
    let t' : taken base xs m ≡ true = subst (λ k. taken base xs k ≡ true) (omega arith) t in
    ground (arith, same_iff (candidate base (suc m)) x, sym e, taken-cons base x xs m t')

-- A step that goes on from the next counter `c` and the next candidate.
module _ (f : ℕ) (assigned : List Text) (base name : Text) (counter : Counter) where
  abbrev next : Counter
  next = set_count base (count_of base counter + 1) counter

  count_of-next : count_of base next ≡ count_of base counter + 1
  count_of-next = count_of-set_count base base _ counter ∙ rw same_refl

  next-shape :
      (out : Text × Counter)
      → taken base assigned (count_of base counter) ≡ true
      → IsFresh f assigned base next (candidate base (count_of base counter + 1)) out
      → ((out.0 ≡ name) × (out.1 ≡ counter))
        ⊎ ((out.0 ≡ candidate base (count_of base out.1))
            × (taken base assigned (count_of base out.1 - 1) ≡ true)
            × (0 < count_of base out.1))
  next-shape out t r = elim r.shape [
    | inl (here, same_counter) ↦
        let e : count_of base out.1 ≡ count_of base counter + 1 =
          ap (count_of base) same_counter ∙ count_of-next in
        inr (
          here ∙ ap (candidate base) (sym e),
          subst (λ n. taken base assigned n ≡ true) (omega (arith, e)) t,
          omega (arith, e),
        )
    | inr later ↦ inr later
  ]

  next-IsFresh :
      (out : Text × Counter)
      → taken base assigned (count_of base counter) ≡ true
      → IsFresh f assigned base next (candidate base (count_of base counter + 1)) out
      → IsFresh (suc f) assigned base counter name out
  next-IsFresh out t r = record {
    free = elim r.free [
      | inl ok ↦ inl ok
      | inr full ↦ inr (
          subst (λ n. taken base assigned n ≡ true) (ap (λ n. n + f) count_of-next ∙ omega arith)
            full)
    ];
    others = λ b ne. r.others b ne ∙ count_of-set_count base b _ counter ∙ rw (same_sym b base, ne);
    shape = next-shape out t r;
  }

fresh-IsFresh :
    (f : ℕ) (assigned : List Text) (base name : Text) (counter : Counter)
    → (member name assigned ≡ true → taken base assigned (count_of base counter) ≡ true)
    → IsFresh f assigned base counter name (fresh f assigned base counter name)
unfolding fresh
fresh-IsFresh zero assigned base name counter pre = record {
  free = elim (Bool-cases (member name assigned)) [
    | inl m ↦ inr (rw add-zero (pre m))
    | inr ok ↦ inl ok
  ];
  others = λ b ne. refl;
  shape = inl (refl, refl);
}
fresh-IsFresh (suc f) assigned base name counter pre = elim (Bool-cases (member name assigned)) [
  | inl m ↦ rw m (
      next-IsFresh f assigned base name counter _ (pre m) (
        fresh-IsFresh f assigned base (candidate base (count_of base counter + 1))
          (set_count base (count_of base counter + 1) counter)
          (λ h.
            subst (λ n. taken base assigned n ≡ true)
              (sym (count_of-next f assigned base name counter))
              (taken-suc base assigned (count_of base counter) h (pre m)))))
  | inr ok ↦ rw ok (record { free = inl ok; others = λ b ne. refl; shape = inl (refl, refl) })
]

-- Every candidate up to the counter of its base is assigned.
abbrev pub IsCounted : List Text → Counter → Type 0
IsCounted assigned counter = (b : Text) → taken b assigned (count_of b counter) ≡ true

module _ (assigned : List Text) (base : Text) (counter : Counter)
    (counted : IsCounted assigned counter) where
  abbrev out : Text × Counter
  out = fresh_name assigned base counter

  loop : IsFresh (suc (length assigned)) assigned base counter base out
  loop = fresh-IsFresh (suc (length assigned)) assigned base base counter (λ _. counted base)

  -- The fuel is enough: the name that comes out is not assigned.
  pub fresh_name-free : member out.0 assigned ≡ false
  fresh_name-free = elim loop.free [
    | inl ok ↦ ok
    | inr full ↦ absurd (omega (arith, taken-le-length base assigned _ full))
  ]

  pub fresh_name-IsCounted : IsCounted (out.0 ∷ assigned) out.1
  fresh_name-IsCounted b = elim (Bool-cases (same base b)) [
    | inr ne ↦ rw (loop.others b ne) (taken-cons b out.0 assigned _ (counted b))
    | inl e ↦
        subst (λ d. taken d (out.0 ∷ assigned) (count_of d out.1) ≡ true) ((same_iff base b).0 e)
          (elim loop.shape [
            | inl (_, kept) ↦ taken-cons base out.0 assigned _ (
                subst (λ l. taken base assigned (count_of base l) ≡ true) (sym kept) (counted base))
            | inr (here, t, pos) ↦ taken_head base out.0 assigned _ here pos t
          ])
  ]

  -- The name is the base, or the base with a suffix that the number of names bounds.
  pub fresh_name-shape :
      (out.0 ≡ base) ⊎ ((n : ℕ) × (out.0 ≡ suffixed base n) × (n ≤ length assigned + 2))
  fresh_name-shape = elim loop.shape [
    | inl (here, _) ↦ inl here
    | inr (here, t, pos) ↦
        inr (count_of base out.1 + 1, here, omega (arith, taken-le-length base assigned _ t))
  ]
