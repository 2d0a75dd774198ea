-- ===== src/Accounts/Password.antt =====
-- `hash_password` and `verify_password`.
use postgre_data_migration_a.Prelude.{
  ℕ, Bool, true, false, ◌&&◌, Option, none, some, List, [], ◌∷◌, ◌++◌, ◌≡◌, ap, arith, not,
  append-nil, append_assoc, sym, all, Text, codes, same, same_refl, ◌==◌, if◌then◌else◌,
}

-- `scrypt password salt n r p` is `hashlib.scrypt` behind `bytes.fromhex` and `int`, in hex; `none`
-- is a ValueError or a TypeError. `sha256` is the hash of the tokens.
pub record Crypto : Type 0 where
  pub scrypt : Text → Text → Text → Text → Text → Option Text
  pub sha256 : Text → Text

abbrev pub dollar : ℕ
dollar = b'$'

-- `stored.split("$")`, with the part in front.
unfoldable pub split_from : Text → Text → List Text
split_from part [] = part ∷ []
split_from part (c ∷ s) =
    let next = split_from [] s in
    let more = split_from (part ++ c ∷ []) s in if c == dollar then part ∷ next else more

abbrev pub check_digest : Text → Option Text → Bool
check_digest want none = false
check_digest want (some dk) = same dk want

-- The parts must be six, and the first one `scrypt`.
abbrev pub verify_parts : Crypto → Text → List Text → Bool
verify_parts crypto password (algo ∷ n ∷ r ∷ p ∷ salt ∷ want ∷ []) =
    same algo (codes "scrypt") && check_digest want (crypto.scrypt password salt n r p)
verify_parts crypto password _ = false

unfoldable pub verify_password : Crypto → Text → Text → Bool
unfolding split_from
verify_password crypto password stored = verify_parts crypto password (split_from [] stored)

-- With the parameters of the module, which scrypt takes; `salt` is in hex.
abbrev pub format_hash : Text → Option Text → Text
format_hash salt none = []
format_hash salt (some dk) = codes "scrypt$16384$8$1$" ++ (salt ++ (dollar ∷ dk))

unfoldable pub hash_password : Crypto → Text → Text → Text
hash_password crypto salt password =
    format_hash salt (crypto.scrypt password salt (codes "16384") (codes "8") (codes "1"))

-- No `$` in the text.
abbrev pub is_plain : Text → Bool
is_plain s = all (λ c. not (c == dollar)) s

split_from-last : (part s : Text) → is_plain s ≡ true → split_from part s ≡ (part ++ s) ∷ []
unfolding split_from
split_from-last part [] h = ap (λ t. t ∷ []) (sym (append-nil part))
split_from-last part (c ∷ s) h =
    ground (arith, split_from-last (part ++ c ∷ []) s, append_assoc part (c ∷ []) s)

split_from-append :
    (part s rest : Text)
    → is_plain s ≡ true
    → split_from part (s ++ dollar ∷ rest) ≡ (part ++ s) ∷ split_from [] rest
unfolding split_from
split_from-append part [] rest h = ap (λ t. t ∷ split_from [] rest) (sym (append-nil part))
split_from-append part (c ∷ s) rest h =
    ground (arith, split_from-append (part ++ c ∷ []) s rest, append_assoc part (c ∷ []) s)

-- A password verifies against its own hash, if scrypt takes it and the texts in hex have no `$`.
pub verify_password-hash_password :
    (crypto : Crypto) (salt password dk : Text)
    → crypto.scrypt password salt (codes "16384") (codes "8") (codes "1") ≡ some dk
    → is_plain salt ≡ true
    → is_plain dk ≡ true
    → verify_password crypto password (hash_password crypto salt password) ≡ true
unfolding verify_password hash_password
verify_password-hash_password crypto salt password dk e hs hd =
    rw (e, split_from-append [] salt dk hs, split_from-last [] dk hd, e, same_refl dk)
