-- ===== src/Tests/Signatures.antt =====
-- The structures of two deployments.
use postgre_data_migration_a.Prelude.{[], ◌∷◌, ◌≡◌, ◌↔◌, refl, codes}
use postgre_data_migration_a.Signatures.{
  Signature, insert_text, sorted, set_of, minus, both, common_lines, diff_signatures,
}
use postgre_data_migration_a.Signatures.Equal.{SameStructure, diff_signatures-SameStructure}

abbrev dev : Signature
dev =
    (codes "b", codes "id:integer:NO" ∷ codes "name:text:YES" ∷ [])
    ∷ (codes "a", codes "id:integer:NO" ∷ [])
    ∷ []

abbrev prod : Signature
prod = (codes "b", codes "name:text:YES" ∷ codes "id:integer:NO" ∷ []) ∷ []

diff_signatures_run :
    diff_signatures (codes "dev") dev (codes "prod") prod
    ≡ codes "prod is missing tables present in dev: a"
      ∷ codes "table b has the same columns in a different ordinal order between dev and prod"
      ∷ []
unfolding diff_signatures sorted insert_text set_of minus both common_lines
diff_signatures_run = refl

diff_signatures-SameStructure_example :
    (diff_signatures (codes "dev") dev (codes "prod") prod ≡ []) ↔ SameStructure dev prod
diff_signatures-SameStructure_example =
    diff_signatures-SameStructure (codes "dev") (codes "prod") dev prod
