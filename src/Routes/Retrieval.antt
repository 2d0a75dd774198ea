-- ===== src/Routes/Retrieval.antt =====
-- api/routers/csv_routes.py and api/services/review.py: an upload that got an id, downloaded and
-- opened for review.
use postgre_data_migration_a.Prelude.{
  ℕ, Bool, true, false, Option, none, some, List, [], ◌∷◌, ◌≡◌, ◌≢◌, ◌⊎◌, refl, sym, ap, ◌∙◌, subst,
  inl, inr, length, drop, replicate, Text, ◌==◌, ==_iff, Bool-cases,
}
use postgre_data_migration_a.Python.{Runtime}
use postgre_data_migration_a.CsvParse.Lexer.{parse_csv}
use postgre_data_migration_a.CsvParse.Columns.{sanitize_columns}
use postgre_data_migration_a.CsvParse.Types.{ColType, text}
use postgre_data_migration_a.Review.Rows.{Decision, Edit, Meta, header_of, columns_of, meta_of}
use postgre_data_migration_a.Review.Rows
use postgre_data_migration_a.Review
use postgre_data_migration_a.Audit
use postgre_data_migration_a.Auth.{ok}
use postgre_data_migration_a.Originals.{
  Report, Original, utf8, original_of, find_original, reviewed,
}
use postgre_data_migration_a.Originals.Kept.{
  IsStored, find_original-own, review_store, open_upload-own,
}
use postgre_data_migration_a.Routes.{Env, World, Sender, UploadRequest, Response, sent_of, upload}
use postgre_data_migration_a.Routes.Reading.{download, or_404, upload_original}
use postgre_data_migration_a.Routes.Uploads.{Keeps, IsKept, upload-Keeps}

stored_one :
    (takes : Original → Bool) (o : Original) (old new : List Original) (found : Option ℕ) (id : ℕ)
    → IsStored takes o old found new
    → found ≡ some id
    → (id ≡ o.id) × (new ≡ o ∷ old)
stored_one takes o old new found id (inl (refused, absent, _)) e =
    let bad : none ≡ some id = sym absent ∙ e in cc bad
stored_one takes o old new found id (inr (taken, own, here)) e =
    let same_id : some id ≡ some o.id = sym e ∙ own in (cc same_id, here)

true_or_false : true ≡ false → ⊥
true_or_false e = cc e

total_of :
    (rt : Runtime) (o : Original) → (meta_of rt (reviewed o)).total ≡ length (drop 1 o.source)
unfolding meta_of
total_of rt o = refl

-- The columns of the review: those of the result, or without any those of the header.
abbrev pub ShowsColumns : Runtime → Text → Option (List Text) → Meta → Type 0
ShowsColumns rt content (some (c ∷ columns)) meta = meta.columns ≡ c ∷ columns
ShowsColumns rt content _ meta = meta.columns ≡ sanitize_columns rt (header_of (parse_csv content))

-- The types of the review: those of the result if there is one for each column, and else text.
abbrev pub ShowsTypes : Option (List ColType) → Meta → Type 0
ShowsTypes none meta = meta.types ≡ replicate (length meta.columns) text
ShowsTypes (some types) meta =
    ((length types ≡ length meta.columns) × (meta.types ≡ types))
    ⊎ ((length types ≢ length meta.columns) × (meta.types ≡ replicate (length meta.columns) text))

-- What the download and the review give of an upload.
pub record IsRetrieved (env : Env) (req : UploadRequest) (r : Report) (id : ℕ) (new : World)
    : Type 0 where
  pub bytes : List ℕ
  pub encoded : utf8 req.content ≡ some bytes
  pub downloaded : upload_original id new ≡ ok (req.file_name, env.rt.sha256 req.content, bytes)
  pub opened :
      (decisions : List Decision) (edits : List Edit) (log : List Audit.Row)
      → (u : Rows.Upload) × (meta : Meta) × (Review.open_upload env.rt id
            (review_store new.originals decisions edits log)
          ≡ Review.ok (u, meta))
        × (u.source ≡ parse_csv req.content)
        × (meta.total ≡ length (drop 1 (parse_csv req.content)))
        × ShowsColumns env.rt req.content r.columns meta
        × ShowsTypes r.types meta

ShowsColumns-reviewed :
    (rt : Runtime) (content : Text) (o : Original) (columns : Option (List Text))
    → o.columns ≡ columns
    → o.source ≡ parse_csv content
    → ShowsColumns rt content columns (meta_of rt (reviewed o))
unfolding meta_of
ShowsColumns-reviewed rt content o none e s = rw e (ap (λ l. sanitize_columns rt (header_of l)) s)
ShowsColumns-reviewed rt content o (some []) e s =
    rw e (ap (λ l. sanitize_columns rt (header_of l)) s)
ShowsColumns-reviewed rt content o (some (c ∷ columns)) e s = rw e refl

ShowsTypes-meta :
    (rt : Runtime) (u : Rows.Upload) (types : Option (List ColType))
    → u.column_types ≡ types
    → ShowsTypes types (meta_of rt u)
unfolding meta_of
ShowsTypes-meta rt u none e = rw e refl
ShowsTypes-meta rt u (some types) e =
    let columns = columns_of rt u u.columns in
    elim (Bool-cases (length types == length columns)) [
      | inl fits ↦ inl ((==_iff (length types) (length columns)).0 fits, rw (e, fits) refl)
      | inr other ↦ inr (
        λ w. true_or_false (sym ((==_iff (length types) (length columns)).1 w) ∙ other),
        rw (e, other) refl,
      )
    ]

-- An upload that got an id is found again under it, whatever its result: the download has the name,
-- the digest of the content and exactly the bytes of the content; and whatever was decided and
-- edited, the review opens the upload with the parsed rows of the content, as many as there are
-- behind its header, with the columns of the result, or without any those of the header, and with
-- the types of the result, if there is one for each column, and else text.
pub upload_original-upload :
    (env : Env) (sender : Sender) (req : UploadRequest) (w new : World) (r : Response) (id : ℕ)
    → upload env sender req w ≡ (ok r, new)
    → r.upload_id ≡ some id
    → IsRetrieved env req r.report id new
unfolding upload_original
upload_original-upload env sender req w new r id e has_id =
    let k : IsKept env sender req w new r =
      subst (Keeps env sender req w) e (upload-Keeps env sender req w) in
    let o = original_of env.rt env.settings.max_row_errors (sent_of sender req) r.report k.bytes in
    let (own, here) =
      stored_one env.takes o w.originals new.originals r.upload_id id k.stored has_id in
    let found : find_original id new.originals ≡ some o =
      ap (λ i. find_original i new.originals) own
      ∙ ap (find_original o.id) here
      ∙ find_original-own o w.originals in
    record {
      bytes = k.bytes;
      encoded = k.encoded;
      downloaded = ap (λ f. download (or_404 f)) found;
      opened = λ decisions edits log. (
        reviewed o,
        meta_of env.rt (reviewed o),
        ap (λ i. Review.open_upload env.rt i (review_store new.originals decisions edits log)) own
            ∙ ap (λ os. Review.open_upload env.rt o.id (review_store os decisions edits log)) here
            ∙ open_upload-own env.rt o w.originals decisions edits log,
        refl,
        total_of env.rt o,
        ShowsColumns-reviewed env.rt req.content o r.report.columns refl refl,
        ShowsTypes-meta env.rt (reviewed o) r.report.types refl,
      );
    }
