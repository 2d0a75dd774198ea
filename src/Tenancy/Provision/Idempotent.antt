-- ===== src/Tenancy/Provision/Idempotent.antt =====
-- `provision_te_tables` of api/tenancy.py: what it leaves behind, and what it does a second time.
use postgre_data_migration_a.Prelude.{
  ℕ, true, false, none, some, List, [], ◌∷◌, ◌++◌, ◌≡◌, ◌⊎◌, refl, sym, ap, ◌∙◌, subst, inl, inr,
  arith, all, All, all→All, length, Text, same, same_iff, same_refl, append-nil, member, Bool-cases,
}
use postgre_data_migration_a.Config.{te_tables}
use postgre_data_migration_a.Tenancy.Provision.{
  Table, Namespace, names, Quoted, clone_named, clone_all, missing_of, create_missing,
  provision_te_tables,
}

-- Every name is one of the others.
abbrev pub AreIn : List Text → List Text → Type 0
AreIn ts us = All (λ t. member t us ≡ true) ts

member-append_right :
    (t : Text) (us vs : List Text) → member t vs ≡ true → member t (us ++ vs) ≡ true
member-append_right t [] vs e = e
member-append_right t (u ∷ us) vs e = ground (arith, member-append_right t us vs e)

member-append_left :
    (t : Text) (us vs : List Text) → member t us ≡ true → member t (us ++ vs) ≡ true
member-append_left t [] vs e = cc e
member-append_left t (u ∷ us) vs e = ground (arith, e, member-append_left t us vs)

names-append : (ts us : List Table) → names (ts ++ us) ≡ names ts ++ names us
names-append [] us = refl
names-append (t ∷ ts) us = ap (◌∷◌ t.name) (names-append ts us)

names-clone_named :
    (q : Quoted) (name : Text) (template : List Table)
    → member name (names template) ≡ true
    → names (clone_named q name template) ≡ name ∷ []
names-clone_named q name [] e = cc e
names-clone_named q name (t ∷ template) e = elim (Bool-cases (same name t.name)) [
  | inl here ↦ rw here (ap (λ x. x ∷ []) (sym ((same_iff name t.name).0 here)))
  | inr later ↦ rw later (names-clone_named q name template (rw later at e))
]

-- The clones of the tables have the names that were asked for, in order.
names-clone_all :
    (q : Quoted) (missing : List Text) (template : List Table)
    → AreIn missing (names template)
    → names (clone_all q missing template) ≡ missing
unfolding clone_all
names-clone_all q [] template h = refl
names-clone_all q (name ∷ missing) template h =
    names-append (clone_named q name template) (clone_all q missing template)
    ∙ ap (λ l. l ++ names (clone_all q missing template)) (names-clone_named q name template h.0)
    ∙ ap (◌∷◌ name) (names-clone_all q missing template h.1)

missing_of-AreIn :
    (present wanted others : List Text)
    → AreIn wanted others
    → AreIn (missing_of present wanted) others
unfolding missing_of
missing_of-AreIn present [] others h = tt
missing_of-AreIn present (t ∷ wanted) others h = elim (Bool-cases (member t present)) [
  | inl here ↦ rw here (missing_of-AreIn present wanted others h.1)
  | inr missing ↦ rw missing (h.0, missing_of-AreIn present wanted others h.1)
]

AreIn-mono :
    (us vs : List Text)
    → ((t : Text) → member t us ≡ true → member t vs ≡ true)
    → (ts : List Text) → AreIn ts us
    → AreIn ts vs
AreIn-mono us vs f [] h = tt
AreIn-mono us vs f (t ∷ ts) h = (f t h.0, AreIn-mono us vs f ts h.1)

member-insert :
    (t u : Text) (us vs : List Text) → member t (us ++ vs) ≡ true → member t (us ++ u ∷ vs) ≡ true
member-insert t u [] vs e = ground (arith, e)
member-insert t u (x ∷ us) vs e = ground (arith, e, member-insert t u us vs)

-- With the missing names, all that are wanted are there.
AreIn-missing_of :
    (present wanted : List Text) → AreIn wanted (present ++ missing_of present wanted)
unfolding missing_of
AreIn-missing_of present [] = tt
AreIn-missing_of present (t ∷ wanted) =
    let rest = AreIn-missing_of present wanted in
    let missing = missing_of present wanted in
    elim (Bool-cases (member t present)) [
      | inl here ↦
          let now : missing_of present (t ∷ wanted) ≡ missing = rw here refl in
          subst (λ m. AreIn (t ∷ wanted) (present ++ m)) (sym now)
            (member-append_left t present missing here, rest)
      | inr absent ↦
          let now : missing_of present (t ∷ wanted) ≡ t ∷ missing = rw absent refl in
          subst (λ m. AreIn (t ∷ wanted) (present ++ m)) (sym now)
            (
              member-append_right t present (t ∷ missing) (ground (arith, same_refl t)),
              AreIn-mono (present ++ missing) (present ++ t ∷ missing)
                  (λ u h. member-insert u t present missing h) wanted rest,
            )
    ]

missing_of-nil :
    (present wanted : List Text) → AreIn wanted present → missing_of present wanted ≡ []
unfolding missing_of
missing_of-nil present [] h = refl
missing_of-nil present (t ∷ wanted) h = rw (h.0) (missing_of-nil present wanted h.1)

-- What the provisioning of a schema leaves: the old tables, and behind them a clone for each name
-- that was missing, as many as it tells; and all T&E tables are there.
pub record Provisioned (q : Quoted) (template schema : Namespace) (n : ℕ) (new : Namespace)
    : Type 0 where
  pub kept :
      new.tables
      ≡ schema.tables ++ clone_all q (missing_of (names schema.tables) te_tables) template.tables
  pub created :
      names (clone_all q (missing_of (names schema.tables) te_tables) template.tables)
      ≡ missing_of (names schema.tables) te_tables
  pub counted : n ≡ length (missing_of (names schema.tables) te_tables)
  pub complete : AreIn te_tables (names new.tables)

create_missing-Provisioned :
    (q : Quoted) (template schema : Namespace) (missing : List Text)
    → missing_of (names schema.tables) te_tables ≡ missing
    → AreIn te_tables (names template.tables)
    → ((create_missing q template schema missing).1.tables
        ≡ schema.tables ++ clone_all q missing template.tables)
      × ((create_missing q template schema missing).0 ≡ length missing)
unfolding clone_all
create_missing-Provisioned q template schema [] e h = (sym (append-nil schema.tables), refl)
create_missing-Provisioned q template schema (t ∷ missing) e h = (refl, refl)

create-Provisioned :
    (q : Quoted) (template schema : Namespace)
    → AreIn te_tables (names template.tables)
    → let made = create_missing q template schema (missing_of (names schema.tables) te_tables) in
      Provisioned q template schema made.0 made.1
create-Provisioned q template schema h =
    let missing = missing_of (names schema.tables) te_tables in
    let made = create_missing-Provisioned q template schema missing refl h in
    let created =
      names-clone_all q missing template.tables
        (missing_of-AreIn (names schema.tables) te_tables (names template.tables) h) in
    record {
      kept = made.0;
      created = created;
      counted = made.1;
      complete =
          subst (AreIn te_tables)
            (ap (λ l. names schema.tables ++ l) (sym created)
              ∙ sym (names-append schema.tables (clone_all q missing template.tables))
              ∙ ap names (sym made.0))
            (AreIn-missing_of (names schema.tables) te_tables);
    }

-- The provisioning refuses exactly a template that lacks a T&E table. Otherwise it leaves the tables
-- of the schema as they were, and behind them a clone of each T&E table that was missing, as many
-- as it tells; every T&E table is there; and a second provisioning creates nothing and leaves the
-- schema as it is.
pub provision_te_tables-Provisioned :
    (q : Quoted) (template schema : Namespace)
    → ((provision_te_tables q template schema ≡ none)
        × (all (λ t. member t (names template.tables)) te_tables ≡ false))
      ⊎ ((n : ℕ) × (new : Namespace) × (provision_te_tables q template schema ≡ some (n, new))
          × Provisioned q template schema n new
          × (provision_te_tables q template new ≡ some (0, new)))
unfolding provision_te_tables
provision_te_tables-Provisioned q template schema =
    elim (Bool-cases (all (λ t. member t (names template.tables)) te_tables)) [
      | inr incomplete ↦ inl (rw incomplete refl, incomplete)
      | inl complete ↦
          let h = all→All (λ t. member t (names template.tables)) te_tables complete in
          let made =
            create_missing q template schema (missing_of (names schema.tables) te_tables) in
          let provisioned = create-Provisioned q template schema h in
          inr (
            made.0,
            made.1,
            rw complete refl,
            provisioned,
            rw (complete, missing_of-nil (names made.1.tables) te_tables provisioned.complete) refl,
          )
    ]
