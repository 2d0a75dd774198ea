-- ===== src/Audit/Chain.antt =====
-- api/services/audit.py: the hash chain against writers, and against changes of the stored rows.
use postgre_data_migration_a.Prelude.{
  ℕ, suc, Bool, true, false, Option, none, some, List, [], ◌∷◌, ◌++◌, any, ◌==◌, ◌≡◌, ◌≢◌, refl,
  sym, ap, ◌∙◌, subst, inl, inr, arith, length, Text, same_iff, same_refl, member, Bool-cases,
}
use postgre_data_migration_a.Audit.{
  Entry, Row, Digest, coalesce, audit_row_hash, latest_hash, chained, valid_actions, write_audit,
  same_option, is_linked, first_bad, or_first,
}

same_option_refl : (a : Option Text) → same_option a a ≡ true
same_option_refl none = refl
same_option_refl (some a) = same_refl a

same_option_iff : (a b : Option Text) → same_option a b ≡ true → a ≡ b
same_option_iff none none e = refl
same_option_iff none (some b) e = cc
same_option_iff (some a) none e = cc
same_option_iff (some a) (some b) e = ap some ((same_iff a b).0 e)

is_linked-chained :
    (digest : Digest) (log : List Row) (e : Entry)
    → is_linked digest (chained digest log e) log ≡ true
is_linked-chained digest log e = rw (
  same_option_refl (latest_hash log),
  same_option_refl (some (audit_row_hash digest (latest_hash log) e)),
)

or_first-none : (m : Option ℕ) → or_first m none ≡ m
or_first-none none = refl
or_first-none (some id) = refl

or_first_iff : (m n : Option ℕ) → or_first m n ≡ none → (m ≡ none) × (n ≡ none)
or_first_iff none n e = (refl, e)
or_first_iff (some id) n e = cc

-- Writing an entry does not change the verdict on the chain: an intact log stays intact, and a row
-- that was changed stays the first bad one. The log grows by one row, or the action is unknown.
pub first_bad-write_audit :
    (digest : Digest) (e : Entry) (log log' : List Row)
    → write_audit digest e log ≡ some log'
    → (first_bad digest log' ≡ first_bad digest log) × (length log' ≡ suc (length log))
unfolding write_audit first_bad
first_bad-write_audit digest e log log' w = elim (Bool-cases (member e.action valid_actions)) [
  | inr unknown ↦ cc (rw unknown at w)
  | inl known ↦
      let same_log : some (chained digest log e ∷ log) ≡ some log' = rw known at w in
      let grown : chained digest log e ∷ log ≡ log' = cc same_log in
      subst (λ l. (first_bad digest l ≡ first_bad digest log) × (length l ≡ suc (length log))) grown
        (rw (is_linked-chained digest log e) (or_first-none (first_bad digest log), refl))
]

-- What an intact log says of its newest row and of the rows before it.
record IsLinked (digest : Digest) (r : Row) (older : List Row) : Type 0 where
  prev : r.prev_hash ≡ latest_hash older
  hash : r.row_hash ≡ some (audit_row_hash digest r.prev_hash r.entry)
  rest : first_bad digest older ≡ none

first_bad-IsLinked :
    (digest : Digest) (r : Row) (older : List Row)
    → first_bad digest (r ∷ older) ≡ none
    → IsLinked digest r older
unfolding first_bad
first_bad-IsLinked digest r older e =
    let both = or_first_iff (first_bad digest older) _ e in
    let linked : is_linked digest r older ≡ true = ground (arith, both.1) in
    record {
      prev = same_option_iff r.prev_hash (latest_hash older) (ground (arith, linked));
      hash = same_option_iff r.row_hash _ (ground (arith, linked));
      rest = both.0;
    }

abbrev is_brace : ℕ → Bool
is_brace c = c == b'{'

-- What the chain needs of the JSON texts and of the hashes: the text of an object begins with a
-- brace, and the digits of a hash are none.
pub record IsHex (digest : Digest) : Type 0 where
  pub object : (e : Entry) → (t : Text) × (digest.jsonb e ≡ b'{' ∷ t)
  pub digits : (t : Text) → any is_brace (digest.sha256 t) ≡ false

-- At every place of the two logs, SHA-256 has different values for the texts that are hashed there,
-- unless they are the same text, and different entries have different JSON texts.
abbrev pub NoCollisions : Digest → List Row → List Row → Type 0
NoCollisions digest (r ∷ xs) (s ∷ ys) =
    (digest.sha256 (coalesce r.prev_hash ++ digest.jsonb r.entry)
        ≡ digest.sha256 (coalesce s.prev_hash ++ digest.jsonb s.entry)
      → coalesce r.prev_hash ++ digest.jsonb r.entry ≡ coalesce s.prev_hash ++ digest.jsonb s.entry)
    × (digest.jsonb r.entry ≡ digest.jsonb s.entry → r.entry ≡ s.entry)
    × NoCollisions digest xs ys
NoCollisions digest _ _ = Unit

-- Two texts that go up to the first brace are equal, and so is what follows.
split_brace :
    (a b t u : Text)
    → any is_brace a ≡ false
    → any is_brace b ≡ false
    → a ++ (b'{' ∷ t) ≡ b ++ (b'{' ∷ u)
    → (a ≡ b) × (b'{' ∷ t ≡ b'{' ∷ u)
split_brace [] [] t u ha hb e = (refl, e)
split_brace [] (d ∷ b) t u ha hb e =
    let first : b'{' ≡ d = cc e in absurd (ground (arith, hb, first))
split_brace (c ∷ a) [] t u ha hb e =
    let first : c ≡ b'{' = cc e in absurd (ground (arith, ha, first))
split_brace (c ∷ a) (d ∷ b) t u ha hb e =
    let first : c ≡ d = cc e in
    let rest : a ++ (b'{' ∷ t) ≡ b ++ (b'{' ∷ u) = cc e in
    let both = split_brace a b t u (ground (arith, ha)) (ground (arith, hb)) rest in
    (cc (first, both.0), both.1)

split_hashed :
    (digest : Digest) (a b : Text) (e f : Entry)
    → IsHex digest
    → any is_brace a ≡ false
    → any is_brace b ≡ false
    → a ++ digest.jsonb e ≡ b ++ digest.jsonb f
    → (a ≡ b) × (digest.jsonb e ≡ digest.jsonb f)
split_hashed digest a b e f hex ha hb same_text =
    let x = hex.object e in
    let y = hex.object f in
    let both =
      split_brace a b x.0 y.0 ha hb
        (ap (λ l. a ++ l) (sym x.1) ∙ same_text ∙ ap (λ l. b ++ l) y.1) in
    (both.0, x.1 ∙ both.1 ∙ sym y.1)

Row-ext :
    (r s : Row) → r.entry ≡ s.entry → r.prev_hash ≡ s.prev_hash → r.row_hash ≡ s.row_hash → r ≡ s
Row-ext r s e p h =
    let one : Entry → Row =
      λ x. record { entry = x; prev_hash = r.prev_hash; row_hash = r.row_hash } in
    let two : Option Text → Row =
      λ x. record { entry = s.entry; prev_hash = x; row_hash = r.row_hash } in
    let three : Option Text → Row =
      λ x. record { entry = s.entry; prev_hash = s.prev_hash; row_hash = x } in
    ap one e ∙ ap two p ∙ ap three h

-- The hashes that two rows link to are equal, where the rows are at the same place of intact logs.
same_prev :
    (digest : Digest) (xs ys : List Row)
    → length xs ≡ length ys
    → first_bad digest xs ≡ none
    → first_bad digest ys ≡ none
    → coalesce (latest_hash xs) ≡ coalesce (latest_hash ys)
    → latest_hash xs ≡ latest_hash ys
same_prev digest [] [] w hx hy e = refl
same_prev digest [] (s ∷ ys) w hx hy e = absurd (omega (arith, w))
same_prev digest (r ∷ xs) [] w hx hy e = absurd (omega (arith, w))
same_prev digest (r ∷ xs) (s ∷ ys) w hx hy e =
    let lx = first_bad-IsLinked digest r xs hx in
    let ly = first_bad-IsLinked digest s ys hy in
    lx.hash ∙ ap some (sym (ap coalesce lx.hash) ∙ e ∙ ap coalesce ly.hash) ∙ sym ly.hash

latest_hash-digits :
    (digest : Digest) (xs : List Row)
    → IsHex digest
    → first_bad digest xs ≡ none
    → any is_brace (coalesce (latest_hash xs)) ≡ false
unfolding audit_row_hash
latest_hash-digits digest [] hex h = refl
latest_hash-digits digest (r ∷ xs) hex h =
    ap (λ o. any is_brace (coalesce o)) (first_bad-IsLinked digest r xs h).hash ∙ hex.digits _

-- Equal hashes at one place of two intact logs are of equal entries behind equal hashes.
hash_inj :
    (digest : Digest) (r s : Row) (xs ys : List Row)
    → IsHex digest
    → NoCollisions digest (r ∷ xs) (s ∷ ys)
    → first_bad digest (r ∷ xs) ≡ none
    → first_bad digest (s ∷ ys) ≡ none
    → audit_row_hash digest r.prev_hash r.entry ≡ audit_row_hash digest s.prev_hash s.entry
    → (coalesce r.prev_hash ≡ coalesce s.prev_hash) × (r.entry ≡ s.entry)
unfolding audit_row_hash
hash_inj digest r s xs ys hex n hx hy e =
    let lx = first_bad-IsLinked digest r xs hx in
    let ly = first_bad-IsLinked digest s ys hy in
    let both =
      split_hashed digest (coalesce r.prev_hash) (coalesce s.prev_hash) r.entry s.entry hex
        (ap (λ o. any is_brace (coalesce o)) lx.prev ∙ latest_hash-digits digest xs hex lx.rest)
        (ap (λ o. any is_brace (coalesce o)) ly.prev ∙ latest_hash-digits digest ys hex ly.rest)
        (n.0 e) in
    (both.0, n.1 both.1)

latest_hash-inj :
    (digest : Digest) (xs ys : List Row)
    → IsHex digest
    → NoCollisions digest xs ys
    → first_bad digest xs ≡ none
    → first_bad digest ys ≡ none
    → length xs ≡ length ys
    → latest_hash xs ≡ latest_hash ys
    → xs ≡ ys
latest_hash-inj digest [] [] hex n hx hy w e = refl
latest_hash-inj digest [] (s ∷ ys) hex n hx hy w e = absurd (omega (arith, w))
latest_hash-inj digest (r ∷ xs) [] hex n hx hy w e = absurd (omega (arith, w))
latest_hash-inj digest (r ∷ xs) (s ∷ ys) hex n hx hy w e =
    let lx = first_bad-IsLinked digest r xs hx in
    let ly = first_bad-IsLinked digest s ys hy in
    let same_hash : some (audit_row_hash digest r.prev_hash r.entry)
        ≡ some (audit_row_hash digest s.prev_hash s.entry) =
      sym lx.hash ∙ e ∙ ly.hash in
    let bound = hash_inj digest r s xs ys hex n hx hy (cc same_hash) in
    let shorter : length xs ≡ length ys = omega (arith, w) in
    let prev : latest_hash xs ≡ latest_hash ys =
      same_prev digest xs ys shorter lx.rest ly.rest
        (ap coalesce (sym lx.prev) ∙ bound.0 ∙ ap coalesce ly.prev) in
    let rest = latest_hash-inj digest xs ys hex n.2 lx.rest ly.rest shorter prev in
    let here = Row-ext r s bound.1 (lx.prev ∙ prev ∙ sym ly.prev) e in cc (here, rest)

-- Two different intact logs of the same length have different newest hashes, if at each place of
-- them SHA-256 does not collide on the two texts that are hashed there and different entries have
-- different JSON texts, which begin with a brace, where the digits of a hash are none.
pub first_bad-inj :
    (digest : Digest) (xs ys : List Row)
    → IsHex digest
    → NoCollisions digest xs ys
    → first_bad digest xs ≡ none
    → first_bad digest ys ≡ none
    → length xs ≡ length ys
    → xs ≢ ys
    → latest_hash xs ≢ latest_hash ys
first_bad-inj digest xs ys hex n hx hy w different e =
    different (latest_hash-inj digest xs ys hex n hx hy w e)
