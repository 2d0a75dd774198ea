-- ===== src/Python/Search.antt =====
-- `in` between texts, and its meaning.
use postgre_data_migration_a.Prelude.{
  Bool, true, ◌||◌, [], ◌∷◌, ◌++◌, ◌≡◌, ◌↔◌, refl, sym, ap, ◌∙◌, subst, inl, inr, arith, Text,
  starts_with, ==_refl, Bool-cases,
}

-- `needle in s`.
unfoldable pub contains : Text → Text → Bool
contains needle [] = starts_with [] needle
contains needle (c ∷ s) = let rest = contains needle s in starts_with (c ∷ s) needle || rest

-- The text is the needle with something before and behind it.
abbrev pub Holds : Text → Text → Type 0
Holds needle s = (before : Text) × (after : Text) × (s ≡ before ++ (needle ++ after))

starts_with-split : (s p : Text) → starts_with s p ≡ true → (after : Text) × (s ≡ p ++ after)
starts_with-split s [] e = (s, refl)
starts_with-split [] (d ∷ p) e = cc e
starts_with-split (c ∷ s) (d ∷ p) e =
    let rest = starts_with-split s p (ground (arith, e)) in
    let first : c ≡ d = ground (arith, e) in
    (rest.0, ap (◌∷◌ c) rest.1 ∙ ap (λ x. x ∷ (p ++ rest.0)) first)

starts_with-append : (p after : Text) → starts_with (p ++ after) p ≡ true
starts_with-append [] [] = refl
starts_with-append [] (c ∷ after) = refl
starts_with-append (c ∷ p) after = rw (==_refl c) (starts_with-append p after)

contains-Holds : (needle s : Text) → contains needle s ≡ true → Holds needle s
unfolding contains
contains-Holds needle [] e = let split = starts_with-split [] needle e in ([], split.0, split.1)
contains-Holds needle (c ∷ s) e = elim (Bool-cases (starts_with (c ∷ s) needle)) [
  | inl here ↦ let split = starts_with-split (c ∷ s) needle here in ([], split.0, split.1)
  | inr later ↦
      let rest = contains-Holds needle s (rw later at e) in (c ∷ rest.0, rest.1, ap (◌∷◌ c) rest.2)
]

contains-append :
    (needle before after : Text) → contains needle (before ++ (needle ++ after)) ≡ true
unfolding contains
contains-append [] [] [] = refl
contains-append [] [] (c ∷ after) = refl
contains-append (c ∷ needle) [] after = rw (starts_with-append (c ∷ needle) after) refl
contains-append needle (c ∷ before) after =
    elim (Bool-cases (starts_with (c ∷ before ++ (needle ++ after)) needle)) [
      | inl here ↦ rw here refl
      | inr later ↦ rw later (contains-append needle before after)
    ]

-- `needle in s` tells whether `s` is the needle with something before and behind it.
pub contains_iff : (needle s : Text) → (contains needle s ≡ true) ↔ Holds needle s
contains_iff needle s = (
  contains-Holds needle s,
  λ h. subst (λ t. contains needle t ≡ true) (sym h.2) (contains-append needle h.0 h.1),
)
