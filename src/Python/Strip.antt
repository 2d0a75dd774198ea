-- ===== src/Python/Strip.antt =====
-- What `str.strip` keeps.
use postgre_data_migration_a.Prelude.{
  ℕ, Bool, true, not, [], ◌∷◌, ◌≡◌, refl, arith, reverse, all, all-reverse, Text,
}
use postgre_data_migration_a.Python.{lstrip_by, rstrip_by, strip_by}

-- The text is empty, or its first character fails the test.
abbrev pub head_fails : (ℕ → Bool) → Text → Bool
head_fails p [] = true
head_fails p (c ∷ s) = not (p c)

module _ (p : ℕ → Bool) where
  head_fails-lstrip_by : (s : Text) → head_fails p (lstrip_by p s) ≡ true
  unfolding lstrip_by
  head_fails-lstrip_by [] = refl
  head_fails-lstrip_by (c ∷ s) = ground (arith, head_fails-lstrip_by s)

  pub head_fails-strip_by : (s : Text) → head_fails p (strip_by p s) ≡ true
  unfolding strip_by
  head_fails-strip_by s = head_fails-lstrip_by (rstrip_by p s)

  module _ (q : ℕ → Bool) where
    all-lstrip_by : (s : Text) → all q s ≡ true → all q (lstrip_by p s) ≡ true
    unfolding lstrip_by
    all-lstrip_by [] h = refl
    all-lstrip_by (c ∷ s) h = ground (arith, all-lstrip_by s)

    pub all-strip_by : (s : Text) → all q s ≡ true → all q (strip_by p s) ≡ true
    unfolding strip_by rstrip_by
    all-strip_by s h =
        all-lstrip_by _ (all-reverse q _ (all-lstrip_by (reverse s) (all-reverse q s h)))
