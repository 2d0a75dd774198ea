-- ===== src/Tiers/Engine/Placeholders.antt =====
-- Tier X of evals/runner.py: a text in which no placeholder is found has none.
use postgre_data_migration_a.Prelude.{
  ℕ, zero, true, not, Option, none, some, List, [], ◌∷◌, ◌++◌, ◌≡◌, ◌≢◌, refl, sym, ◌∙◌, subst, All,
  Text, codes, same, append_assoc,
}
use postgre_data_migration_a.Tiers.Engine.{
  is_upper, name_from, match_at, match_or, braced, find_from, leftovers,
}

append_one-some : (name : Text) (c : ℕ) → not (same (name ++ (c ∷ [])) []) ≡ true
append_one-some [] c = refl
append_one-some (d ∷ name) c = refl

name_from-found :
    (read name after : Text)
    → All (λ c. is_upper c ≡ true) name
    → not (same read []) ≡ true
    → (found : Text) × (name_from read (name ++ (codes "}}" ++ after)) ≡ some found)
unfolding name_from
name_from-found read [] after upper some_read = (read, rw some_read refl)
name_from-found read (c ∷ name) after upper some_read =
    let (found, rest) =
      name_from-found (read ++ (c ∷ [])) name after upper.1 (append_one-some read c) in
    (found, rw (upper.0) rest)

-- A placeholder: `{{`, a name of the class, `}}`.
abbrev pub IsName : Text → Type 0
IsName name = (name ≢ []) × All (λ c. is_upper c ≡ true) name

match_at-found :
    (name after : Text)
    → IsName name
    → (found : Text) × (match_at (braced name ++ after) ≡ some found)
unfolding name_from
match_at-found [] after (filled, upper) = absurd (filled refl)
match_at-found (c ∷ name) after (filled, upper) =
    let (found, rest) = name_from-found (c ∷ []) name after upper.1 refl in
    (found, rw (append_assoc name (codes "}}") after, upper.0) rest)

match_or-nil :
    (find : ℕ → List Text) (o : Option Text) → match_or find o ≡ [] → (o ≡ none) × (find zero ≡ [])
match_or-nil find none e = (refl, e)
match_or-nil find (some name) e = cc e

find_from-cons :
    (c : ℕ) (s : Text)
    → find_from zero (c ∷ s) ≡ []
    → (match_at (c ∷ s) ≡ none) × (find_from zero s ≡ [])
unfolding find_from
find_from-cons c s e = match_or-nil (λ skip. find_from skip s) (match_at (c ∷ s)) e

none_or_some : (o : Option Text) (t : Text) → o ≡ none → o ≢ some t
none_or_some o t e h = let bad : none ≡ some t = sym e ∙ h in cc bad

find_from-some :
    (before name after : Text)
    → IsName name
    → find_from zero (before ++ (braced name ++ after)) ≢ []
find_from-some [] name after is_name e =
    let (found, there) = match_at-found name after is_name in
    let parts = find_from-cons b'{' (b'{' ∷ ((name ++ codes "}}") ++ after)) e in
    none_or_some (match_at (braced name ++ after)) found parts.0 there
find_from-some (c ∷ before) name after is_name e =
    find_from-some before name after is_name
      (find_from-cons c (before ++ (braced name ++ after)) e).1

-- If nothing is found, the text has no placeholder anywhere.
pub leftovers-nil :
    (text before name after : Text)
    → leftovers text ≡ []
    → IsName name
    → text ≢ before ++ (braced name ++ after)
unfolding leftovers
leftovers-nil text before name after e is_name here =
    find_from-some before name after is_name (subst (λ t. find_from zero t ≡ []) here e)
