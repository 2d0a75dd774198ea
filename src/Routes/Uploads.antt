-- ===== src/Routes/Uploads.antt =====
-- `upload` of api/routers/csv_routes.py: what a request leaves behind.
use postgre_data_migration_a.Prelude.{
  ℕ, true, false, Option, none, some, List, [], ◌∷◌, ◌≡◌, ◌≢◌, refl, sym, ap, ◌∙◌, inl, inr, ◌⊎◌,
  length, Text, codes, same, same_iff, ltb, Bool-cases, if◌then◌else◌,
}
use postgre_data_migration_a.Audit.{Row, chained, write_audit, record_audit, first_bad}
use postgre_data_migration_a.Audit.Chain.{first_bad-write_audit}
use postgre_data_migration_a.DynamicLoader.{upload_dynamic}
use postgre_data_migration_a.TeLoader.{State, upload_te}
use postgre_data_migration_a.Auth.{Http, ok, http, crashed}
use postgre_data_migration_a.Originals.{Report, dynamic_report, te_report, utf8, original_of}
use postgre_data_migration_a.Originals.Kept.{IsStored, record_upload-IsStored}
use postgre_data_migration_a.Routes.{
  Env, World, Sender, UploadRequest, Response, load, load_te, te_mode, dynamic_mode, sent_of,
  upload_entry, kept, upload_bytes, upload,
}

-- What a request of mode "te" runs: the loader of the fixed tables, on a target that is named.
pub record LoadsTe (env : Env) (req : UploadRequest) (s : State) (r : Report) (t : State)
    : Type 0 where
  pub mode : req.mode ≡ codes "te"
  pub c : ℕ
  pub target : Text
  pub named : req.target_table ≡ some (c ∷ target)
  pub report :
      te_report
        (upload_te env.rt env.te_server env.settings env.te_others req.file_name req.content
          (c ∷ target)
          s).0
      ≡ some r
  pub left :
      t
      ≡ (upload_te env.rt env.te_server env.settings env.te_others req.file_name req.content
          (c ∷ target)
          s).1

-- What a request of mode "dynamic" runs: the loader that makes a table, on the tables of the schema.
pub record LoadsDynamic (env : Env) (req : UploadRequest) (s : State) (r : Report) (t : State)
    : Type 0 where
  pub mode : req.mode ≡ codes "dynamic"
  pub report :
      dynamic_report
        (upload_dynamic env.rt env.settings env.server env.others req.file_name req.content
          req.types req.overwrite s.db).0
      ≡ some r
  pub left : t ≡ record s {
    db =
        (upload_dynamic env.rt env.settings env.server env.others req.file_name req.content
          req.types req.overwrite s.db).1;
  }

abbrev pub Loads : Env → UploadRequest → State → Report → State → Type 0
Loads env req s r t = LoadsTe env req s r t ⊎ LoadsDynamic env req s r t

-- The request names no loader, or the one of the fixed tables and no target.
abbrev pub IsUnnamed : UploadRequest → Type 0
IsUnnamed req =
    ((req.mode ≡ codes "te") × ((req.target_table ≡ none) ⊎ (req.target_table ≡ some [])))
    ⊎ ((req.mode ≢ codes "te") × (req.mode ≢ codes "dynamic"))

-- A load that is ok has one audit row, chained to the others, unless the database refuses it; any
-- other result has none.
abbrev pub Audited : Env → Sender → UploadRequest → Report → List Row → List Row → Type 0
Audited env sender req r old new =
    ((r.status ≡ codes "ok")
      × (env.audit_fails ≡ false)
      × (new ≡ chained env.digest old (upload_entry sender req r) ∷ old))
    ⊎ (((r.status ≢ codes "ok") ⊎ (env.audit_fails ≡ true)) × (new ≡ old))

-- What an answered request leaves: the loader's tables, the original, and the audit log.
pub record IsKept (env : Env) (sender : Sender) (req : UploadRequest) (old new : World)
    (r : Response) : Type 0 where
  pub bytes : List ℕ
  pub encoded : utf8 req.content ≡ some bytes
  pub small : ltb env.settings.max_upload_bytes (length bytes) ≡ false
  pub loads : Loads env req old.loaded r.report new.loaded
  pub stored :
      IsStored env.takes
        (original_of env.rt env.settings.max_row_errors (sent_of sender req) r.report bytes)
        old.originals
        r.upload_id
        new.originals
  pub log : Audited env sender req r.report old.audit new.audit
  pub verdict : first_bad env.digest new.audit ≡ first_bad env.digest old.audit

-- Why a request is refused.
abbrev pub IsRefused : Env → UploadRequest → ℕ → Type 0
IsRefused env req status =
    ((status ≡ 413)
      × (bytes : List ℕ) × (utf8 req.content ≡ some bytes)
      × (ltb env.settings.max_upload_bytes (length bytes) ≡ true))
    ⊎ ((status ≡ 422) × IsUnnamed req)

-- What `upload` may answer and leave.
abbrev pub Keeps : Env → Sender → UploadRequest → World → Http Response × World → Type 0
Keeps env sender req w (ok r, new) = IsKept env sender req w new r
Keeps env sender req w (http status, new) = (new ≡ w) × IsRefused env req status
Keeps env sender req w (crashed, new) = (new.originals ≡ w.originals) × (new.audit ≡ w.audit)

different : (s t : Text) → same s t ≡ false → s ≢ t
different s t e is_t = cc (sym ((same_iff s t).1 is_t) ∙ e)

if-Audited :
    (env : Env) (sender : Sender) (req : UploadRequest) (r : Report) (old : List Row)
    → Audited env sender req r old (
        if same r.status (codes "ok")
        then (record_audit env.digest env.audit_fails (upload_entry sender req r) old).1
        else old)
unfolding record_audit write_audit
if-Audited env sender req r old = elim (Bool-cases (same r.status (codes "ok"))) [
  | inr other ↦ rw other (inr (inl (different r.status (codes "ok") other), refl))
  | inl loaded ↦ elim (Bool-cases env.audit_fails) [
    | inl fails ↦ rw (loaded, fails) (inr (inr refl, refl))
    | inr audits ↦ rw (loaded, audits) (inl ((same_iff r.status (codes "ok")).0 loaded, refl, refl))
  ]
]

Audited-first_bad :
    (env : Env) (sender : Sender) (req : UploadRequest) (r : Report) (old new : List Row)
    → Audited env sender req r old new
    → first_bad env.digest new ≡ first_bad env.digest old
unfolding write_audit
Audited-first_bad env sender req r old new (inr (reason, kept)) = ap (first_bad env.digest) kept
Audited-first_bad env sender req r old new (inl (loaded, audits, grown)) =
    ap (first_bad env.digest) grown
    ∙ (first_bad-write_audit env.digest (upload_entry sender req r) old
        (chained env.digest old (upload_entry sender req r) ∷ old) refl).0

-- What `load` may answer and leave.
abbrev Loaded : Env → UploadRequest → State → Http (Option Report × State) → Type 0
Loaded env req s (ok (none, t)) = Unit
Loaded env req s (ok (some r, t)) = Loads env req s r t
Loaded env req s (http status) = (status ≡ 422) × IsUnnamed req
Loaded env req s crashed = ⊥

ok_te-Loaded :
    (env : Env) (req : UploadRequest) (s t : State) (c : ℕ) (target : Text) (o : Option Report)
    → req.mode ≡ codes "te"
    → req.target_table ≡ some (c ∷ target)
    → te_report
        (upload_te env.rt env.te_server env.settings env.te_others req.file_name req.content
          (c ∷ target)
          s).0
      ≡ o
    → t
      ≡ (upload_te env.rt env.te_server env.settings env.te_others req.file_name req.content
          (c ∷ target)
          s).1
    → Loaded env req s (ok (o, t))
ok_te-Loaded env req s t c target none mode named e l = tt
ok_te-Loaded env req s t c target (some r) mode named e l =
    inl (record { mode = mode; c = c; target = target; named = named; report = e; left = l })

load_te-Loaded :
    (env : Env) (req : UploadRequest) (s : State) (target : Option Text)
    → req.mode ≡ codes "te"
    → req.target_table ≡ target
    → Loaded env req s (load_te env req s target)
load_te-Loaded env req s none mode named = (refl, inl (mode, inl named))
load_te-Loaded env req s (some []) mode named = (refl, inl (mode, inr named))
load_te-Loaded env req s (some (c ∷ target)) mode named =
    ok_te-Loaded env req s _ c target _ mode named refl refl

ok_dynamic-Loaded :
    (env : Env) (req : UploadRequest) (s t : State) (o : Option Report)
    → req.mode ≡ codes "dynamic"
    → dynamic_report
        (upload_dynamic env.rt env.settings env.server env.others req.file_name req.content
          req.types req.overwrite s.db).0
      ≡ o
    → t ≡ record s {
      db =
          (upload_dynamic env.rt env.settings env.server env.others req.file_name req.content
            req.types req.overwrite s.db).1;
    }
    → Loaded env req s (ok (o, t))
ok_dynamic-Loaded env req s t none mode e l = tt
ok_dynamic-Loaded env req s t (some r) mode e l = inr (record { mode = mode; report = e; left = l })

load-Loaded : (env : Env) (req : UploadRequest) (s : State) → Loaded env req s (load env req s)
unfolding load
load-Loaded env req s = elim (Bool-cases (same req.mode te_mode)) [
  | inl is_te ↦
      rw is_te
        (load_te-Loaded env req s req.target_table ((same_iff req.mode te_mode).0 is_te) refl)
  | inr no_te ↦ elim (Bool-cases (same req.mode dynamic_mode)) [
    | inl is_dynamic ↦
        rw (no_te, is_dynamic)
          (ok_dynamic-Loaded env req s _ _ ((same_iff req.mode dynamic_mode).0 is_dynamic) refl
            refl)
    | inr neither ↦
        rw (no_te, neither)
          (refl, inr (different req.mode te_mode no_te, different req.mode dynamic_mode neither))
  ]
]

module _ (env : Env) (sender : Sender) (req : UploadRequest) (w : World) (bytes : List ℕ)
    (encoded : utf8 req.content ≡ some bytes)
    (small : ltb env.settings.max_upload_bytes (length bytes) ≡ false) where
  kept-Keeps :
      (m : Http (Option Report × State))
      → Loaded env req w.loaded m
      → Keeps env sender req w (kept env sender req bytes w m)
  kept-Keeps (ok (none, s)) h = (refl, refl)
  kept-Keeps (http status) h = (refl, inr h)
  kept-Keeps crashed h = (refl, refl)
  kept-Keeps (ok (some r, s)) h =
      let audited = if-Audited env sender req r w.audit in
      record {
        bytes = bytes;
        encoded = encoded;
        small = small;
        loads = h;
        stored =
            record_upload-IsStored env.rt env.takes env.settings.max_row_errors (sent_of sender req)
              r bytes w.originals;
        log = audited;
        verdict = Audited-first_bad env sender req r w.audit _ audited;
      }

upload_bytes-Keeps :
    (env : Env) (sender : Sender) (req : UploadRequest) (w : World) (o : Option (List ℕ))
    → utf8 req.content ≡ o
    → Keeps env sender req w (upload_bytes env sender req w o)
upload_bytes-Keeps env sender req w none e = (refl, refl)
upload_bytes-Keeps env sender req w (some bytes) e =
    elim (Bool-cases (ltb env.settings.max_upload_bytes (length bytes))) [
      | inl large ↦ rw large (refl, inl (refl, bytes, e, large))
      | inr small ↦ rw small (
          kept-Keeps env sender req w bytes e small (load env req w.loaded)
            (load-Loaded env req w.loaded))
    ]

pub upload-Keeps :
    (env : Env) (sender : Sender) (req : UploadRequest) (w : World)
    → Keeps env sender req w (upload env sender req w)
unfolding upload
upload-Keeps env sender req w = upload_bytes-Keeps env sender req w (utf8 req.content) refl
