-- ===== src/RateLimit/Log.antt =====
-- api/ratelimit.py: the hits of a window, and the log of all requests that were let through.
use postgre_data_migration_a.Prelude.{
  ℕ, ◌+◌, ◌≤◌, ◌<◌, Bool, true, false, List, [], ◌∷◌, ◌++◌, ◌≡◌, refl, ap, ◌∙◌, inl, inr, arith,
  length, All, leb, ltb, if◌then◌else◌, Bool-cases,
}
use postgre_data_migration_a.RateLimit.{Verdict, allowed, retry_after, popleft, admit}

-- The requests of a log that are in the window at time `t`.
unfoldable pub recent : ℕ → ℕ → List ℕ → List ℕ
recent window t [] = []
recent window t (h ∷ log) =
    let rest = recent window t log in if leb (h + window) t then rest else h ∷ rest

pub recent-append :
    (window t : ℕ) (xs ys : List ℕ)
    → recent window t (xs ++ ys) ≡ recent window t xs ++ recent window t ys
unfolding recent
recent-append window t [] ys = refl
recent-append window t (x ∷ xs) ys = elim (Bool-cases (leb (x + window) t)) [
  | inl old ↦ rw old (recent-append window t xs ys)
  | inr new ↦ rw new (ap (◌∷◌ x) (recent-append window t xs ys))
]

pub popleft-popleft :
    (window s t : ℕ) (hits : List ℕ)
    → s ≤ t
    → popleft window t (popleft window s hits) ≡ popleft window t hits
unfolding popleft
popleft-popleft window s t [] h = refl
popleft-popleft window s t (x ∷ hits) h = elim (Bool-cases (leb (x + window) s)) [
  | inl old ↦ rw old (popleft-popleft window s t hits h ∙ ground arith)
  | inr new ↦ rw new
]

-- Every hit of the bucket is at most `last`.
abbrev pub IsBelow : ℕ → List ℕ → Type 0
IsBelow last hits = All (λ h. h ≤ last) hits

pub popleft-concat :
    (window s t : ℕ) (hits : List ℕ)
    → IsBelow s hits
    → popleft window t (hits ++ s ∷ []) ≡ popleft window t hits ++ recent window t (s ∷ [])
unfolding popleft recent
popleft-concat window s t [] h = refl
popleft-concat window s t (x ∷ hits) h = elim (Bool-cases (leb (x + window) t)) [
  | inl old ↦ rw old (popleft-concat window s t hits h.1)
  | inr new ↦ let late : leb (s + window) t ≡ false = ground (arith, h.0) in rw (new, late)
]

pub IsBelow-mono : (s t : ℕ) (hits : List ℕ) → s ≤ t → IsBelow s hits → IsBelow t hits
IsBelow-mono s t [] h b = tt
IsBelow-mono s t (x ∷ hits) h b = (omega (arith, b.0), IsBelow-mono s t hits h b.1)

pub IsBelow-popleft :
    (window s t : ℕ) (hits : List ℕ) → IsBelow s hits → IsBelow s (popleft window t hits)
unfolding popleft
IsBelow-popleft window s t [] b = tt
IsBelow-popleft window s t (x ∷ hits) b = elim (Bool-cases (leb (x + window) t)) [
  | inl old ↦ rw old (IsBelow-popleft window s t hits b.1)
  | inr new ↦ rw new b
]

pub length-popleft : (window t : ℕ) (hits : List ℕ) → length (popleft window t hits) ≤ length hits
unfolding popleft
length-popleft window t [] = omega arith
length-popleft window t (x ∷ hits) = ground (arith, length-popleft window t hits)

-- The oldest hit is in the window.
abbrev pub IsYoung : ℕ → ℕ → List ℕ → Type 0
IsYoung window stamp [] = Unit
IsYoung window stamp (h ∷ hits) = stamp < h + window

pub popleft-IsYoung : (window t : ℕ) (hits : List ℕ) → IsYoung window t (popleft window t hits)
unfolding popleft
popleft-IsYoung window t [] = tt
popleft-IsYoung window t (x ∷ hits) = elim (Bool-cases (leb (x + window) t)) [
  | inl old ↦ rw old (popleft-IsYoung window t hits)
  | inr new ↦ rw new (ground arith)
]

-- The times do not go back, from `last` on.
abbrev pub IsOrdered : ℕ → List ℕ → Type 0
IsOrdered last [] = Unit
IsOrdered last (stamp ∷ stamps) = (last ≤ stamp) × IsOrdered stamp stamps

-- The bucket stands for the log, at `last` and later.
pub record Tracks (limit window last : ℕ) (hits log : List ℕ) : Type 0 where
  pub view : (t : ℕ) → last ≤ t → popleft window t hits ≡ recent window t log
  pub below : IsBelow last hits
  pub short : length hits ≤ limit

-- The specification: a log of the allowed requests.
abbrev pub is_free : ℕ → ℕ → ℕ → List ℕ → Bool
is_free limit window stamp log = ltb (length (recent window stamp log)) limit

abbrev pub log_after : ℕ → ℕ → ℕ → List ℕ → List ℕ
log_after limit window stamp log = if is_free limit window stamp log then log ++ stamp ∷ [] else log

abbrev pub is_allowed : Verdict → Bool
is_allowed allowed = true
is_allowed (retry_after wait) = false

module _ (limit window : ℕ) where
  -- The verdicts of one bucket on requests at the times `stamps`.
  unfoldable pub admit_all : List ℕ → List ℕ → List Bool
  admit_all hits [] = []
  admit_all hits (stamp ∷ stamps) =
      is_allowed (admit limit window stamp hits).1
      ∷ admit_all (admit limit window stamp hits).0 stamps

  -- The verdicts of the specification, which keeps the log of all allowed requests.
  unfoldable pub specify : List ℕ → List ℕ → List Bool
  specify log [] = []
  specify log (stamp ∷ stamps) =
      is_free limit window stamp log ∷ specify (log_after limit window stamp log) stamps
