-- ===== src/Registry/Unique.antt =====
-- The UNIQUE indexes of `csv_files` on the file name and on the hash.
use postgre_data_migration_a.Prelude.{
  Bool, false, ◌||◌, some, List, [], ◌∷◌, ◌++◌, ◌≡◌, refl, inl, inr, arith, any, same_sym,
  same_refl, subst, ◌∙◌, Bool-cases,
}
use postgre_data_migration_a.Registry.{CsvFile, find_file, delete_files, clashes, by_name, register}

abbrev clash : CsvFile → List CsvFile → Bool
clash f fs = any (clashes f.file_name f.file_hash) fs

abbrev pub IsUnique : List CsvFile → Type 0
IsUnique [] = Unit
IsUnique (f ∷ fs) = (clash f fs ≡ false) × IsUnique fs

any-append {ℓ} :
    {A : Type ℓ} (p : A → Bool) (xs ys : List A) → any p (xs ++ ys) ≡ (any p xs || any p ys)
any-append p [] ys = refl
any-append p (x ∷ xs) ys = ground (arith, any-append p xs ys)

pub any-delete_files :
    (q p : CsvFile → Bool) (fs gs : List CsvFile)
    → any q (fs ++ gs) ≡ false
    → any q (delete_files p fs ++ gs) ≡ false
unfolding delete_files
any-delete_files q p [] gs h = h
any-delete_files q p (f ∷ fs) gs h = elim (Bool-cases (p f)) [
  | inl gone ↦ rw gone (any-delete_files q p fs gs (ground arith))
  | inr stays ↦ rw stays (ground (arith, any-delete_files q p fs gs))
]

pub IsUnique-delete_files :
    (p : CsvFile → Bool) (fs gs : List CsvFile)
    → IsUnique (fs ++ gs)
    → IsUnique (delete_files p fs ++ gs)
unfolding delete_files
IsUnique-delete_files p [] gs h = h
IsUnique-delete_files p (f ∷ fs) gs h = elim (Bool-cases (p f)) [
  | inl gone ↦ rw gone (IsUnique-delete_files p fs gs h.1)
  | inr stays ↦ rw stays (
    any-delete_files (clashes f.file_name f.file_hash) p fs gs h.0,
    IsUnique-delete_files p fs gs h.1,
  )
]

pub IsUnique-append_left : (fs gs : List CsvFile) → IsUnique (fs ++ gs) → IsUnique fs
IsUnique-append_left [] gs h = tt
IsUnique-append_left (f ∷ fs) gs h = (
  ground (arith, any-append (clashes f.file_name f.file_hash) fs gs, h.0),
  IsUnique-append_left fs gs h.1,
)

clash_concat :
    (f g : CsvFile) (fs : List CsvFile)
    → clash f fs ≡ false
    → clashes g.file_name g.file_hash f ≡ false
    → clash f (fs ++ g ∷ []) ≡ false
clash_concat f g fs h k = ground (
  arith,
  any-append (clashes f.file_name f.file_hash) fs (g ∷ []),
  same_sym f.file_name g.file_name,
  same_sym f.file_hash g.file_hash,
)

IsUnique-concat :
    (fs : List CsvFile) (g : CsvFile) → IsUnique fs → clash g fs ≡ false → IsUnique (fs ++ g ∷ [])
IsUnique-concat [] g h k = (refl, tt)
IsUnique-concat (f ∷ fs) g h k =
    (clash_concat f g fs h.0 (ground arith), IsUnique-concat fs g h.1 (ground arith))

pub register-IsUnique :
    (fs : List CsvFile) (g : CsvFile) {gs : List CsvFile}
    → register fs g ≡ some gs
    → IsUnique fs
    → IsUnique gs
unfolding register
register-IsUnique fs g {gs} e h = elim (Bool-cases (clash g fs)) [
  | inl taken ↦ cc (rw taken at e)
  | inr free ↦
      let same_files : some (fs ++ g ∷ []) ≡ some gs = rw free at e in
      subst IsUnique (cc same_files) (IsUnique-concat fs g h free)
]

find_file-append :
    (p : CsvFile → Bool) (fs gs : List CsvFile)
    → any p fs ≡ false
    → find_file p (fs ++ gs) ≡ find_file p gs
unfolding find_file
find_file-append p [] gs h = refl
find_file-append p (f ∷ fs) gs h = ground (arith, find_file-append p fs gs)

clash-by_name :
    (g : CsvFile) (fs : List CsvFile) → clash g fs ≡ false → any (by_name g.file_name) fs ≡ false
clash-by_name g [] h = refl
clash-by_name g (f ∷ fs) h = ground (arith, clash-by_name g fs)

-- A row that was registered is the one that its name finds.
pub find_file-register :
    (fs : List CsvFile) (g : CsvFile) {gs : List CsvFile}
    → register fs g ≡ some gs
    → find_file (by_name g.file_name) gs ≡ some g
unfolding register
find_file-register fs g {gs} e = elim (Bool-cases (clash g fs)) [
  | inl taken ↦ cc (rw taken at e)
  | inr free ↦
      let same_files : some (fs ++ g ∷ []) ≡ some gs = rw free at e in
      subst (λ l. find_file (by_name g.file_name) l ≡ some g) (cc same_files)
        (find_file-append (by_name g.file_name) fs (g ∷ []) (clash-by_name g fs free)
          ∙ unfold find_file in rw same_refl)
]
