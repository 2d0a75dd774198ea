-- ===== src/RateLimit/Buckets.antt =====
-- The table of buckets: its bound, and what one request changes for its own and for other clients.
use postgre_data_migration_a.Prelude.{
  ℕ, Text, ◌≤◌, ◌<◌, Bool, true, false, List, [], ◌∷◌, ◌++◌, ◌≡◌, refl, ap, ◌∙◌, inl, inr, arith,
  length, length-append, ◌==◌, any, member, same_iff, same_refl, subst, Bool-cases,
}
use postgre_data_migration_a.RateLimit.{
  Scope, read, write, Key, same_scope, same_key, Buckets, max_tracked_clients, hits_of, without,
  Verdict, allowed, retry_after, popleft, decide, admit, evict, conclude, check, Request,
  exempt_paths, client_id, next, answer_of, minute, middleware,
}
use postgre_data_migration_a.Config.{Settings}

same_scope_refl : (s : Scope) → same_scope s s ≡ true
same_scope_refl read = refl
same_scope_refl write = refl

same_key_refl : (k : Key) → same_key k k ≡ true
same_key_refl k = rw (same_refl k.client, same_scope_refl k.scope)

length-without : (k : Key) (bs : Buckets) → length (without k bs) ≤ length bs
unfolding without
length-without k [] = omega arith
length-without k ((j, hits) ∷ bs) = ground (arith, length-without k bs)

without-found :
    (k : Key) (bs : Buckets) (h : ℕ) (hits : List ℕ)
    → hits_of k bs ≡ h ∷ hits
    → length (without k bs) < length bs
unfolding without hits_of
without-found k [] h hits e = cc
without-found k ((j, b) ∷ bs) h hits e = elim (Bool-cases (same_key k j)) [
  | inl here ↦ rw here (ground (arith, length-without k bs))
  | inr there ↦ rw there (ground (arith, without-found k bs h hits (rw there at e)))
]

length-evict : (bs : Buckets) → length (evict bs) ≤ max_tracked_clients
unfolding evict
length-evict [] = omega arith
length-evict (b ∷ bs) = ground (arith, length-evict bs)

-- A client with no bucket is never refused.
admit-new : (limit window stamp : ℕ) → admit limit window stamp [] ≡ (stamp ∷ [], allowed)
unfolding admit popleft decide
admit-new limit window stamp = refl

conclude_bound :
    (others : Buckets) (key : Key) (r : List ℕ × Verdict)
    → ((wait : ℕ) → r.1 ≡ retry_after wait → length others < max_tracked_clients)
    → length (conclude others key r).0 ≤ max_tracked_clients
unfolding conclude
conclude_bound others key (hits, allowed) h = length-evict (others ++ (key, hits) ∷ [])
conclude_bound others key (hits, retry_after wait) h =
    omega (arith, length-append others ((key, hits) ∷ []), h wait refl)

refused-found :
    (limit window stamp wait : ℕ) (key : Key) (bs : Buckets) (hits : List ℕ)
    → hits_of key bs ≡ hits
    → (admit limit window stamp hits).1 ≡ retry_after wait
    → length (without key bs) < length bs
refused-found limit window stamp wait key bs [] e r =
    cc (ap (λ p. p.1) (admit-new limit window stamp))
refused-found limit window stamp wait key bs (h ∷ hits) e r = without-found key bs h hits e

-- A table within its bound stays within its bound, whatever the client, the limit and the time.
pub check_bound :
    (limit window stamp : ℕ) (key : Key) (bs : Buckets)
    → length bs ≤ max_tracked_clients
    → length (check limit window stamp key bs).0 ≤ max_tracked_clients
unfolding check
check_bound limit window stamp key bs h = elim (Bool-cases (limit == 0)) [
  | inl off ↦ rw off h
  | inr on ↦ rw on (
      conclude_bound (without key bs) key (admit limit window stamp (hits_of key bs))
        (λ wait r. omega (arith, refused-found limit window stamp wait key bs _ refl r, h)))
]

abbrev has_key : Key → Buckets → Bool
has_key k bs = any (λ b. same_key k b.0) bs

has_key-without : (k : Key) (bs : Buckets) → has_key k (without k bs) ≡ false
unfolding without
has_key-without k [] = refl
has_key-without k ((j, hits) ∷ bs) = ground (arith, has_key-without k bs)

hits_of-concat :
    (k : Key) (hits : List ℕ) (bs : Buckets)
    → has_key k bs ≡ false
    → hits_of k (bs ++ (k, hits) ∷ []) ≡ hits
unfolding hits_of
hits_of-concat k hits [] e = rw (same_key_refl k)
hits_of-concat k hits ((j, b) ∷ bs) e = ground (arith, hits_of-concat k hits bs)

hits_of-evict :
    (k : Key) (hits : List ℕ) (bs : Buckets)
    → has_key k bs ≡ false
    → hits_of k (evict (bs ++ (k, hits) ∷ [])) ≡ hits
unfolding evict hits_of
hits_of-evict k hits [] e = rw (same_key_refl k)
hits_of-evict k hits ((j, b) ∷ bs) e =
    ground (arith, hits_of-evict k hits bs, hits_of-concat k hits bs)

conclude-own :
    (others : Buckets) (key : Key) (r : List ℕ × Verdict)
    → has_key key others ≡ false
    → (hits_of key (conclude others key r).0 ≡ r.0) × ((conclude others key r).1 ≡ r.1)
unfolding conclude
conclude-own others key (hits, allowed) h = (hits_of-evict key hits others h, refl)
conclude-own others key (hits, retry_after wait) h = (hits_of-concat key hits others h, refl)

-- One request acts on the bucket of its client as `admit` does, and gives its verdict; the bucket
-- is not evicted.
pub check-admit :
    (limit window stamp : ℕ) (key : Key) (bs : Buckets)
    → (limit == 0) ≡ false
    → (hits_of key (check limit window stamp key bs).0
        ≡ (admit limit window stamp (hits_of key bs)).0)
      × ((check limit window stamp key bs).1 ≡ (admit limit window stamp (hits_of key bs)).1)
unfolding check
check-admit limit window stamp key bs on = rw on (
    conclude-own (without key bs) key (admit limit window stamp (hits_of key bs))
      (has_key-without key bs))

same_scope_iff : (a b : Scope) → same_scope a b ≡ true → a ≡ b
same_scope_iff read read e = refl
same_scope_iff write write e = refl
same_scope_iff read write e = cc
same_scope_iff write read e = cc

same_key_iff : (a b : Key) → same_key a b ≡ true → a ≡ b
same_key_iff a b e =
    let clients : a.client ≡ b.client = (same_iff a.client b.client).0 (ground (arith, e)) in
    let scopes : a.scope ≡ b.scope = same_scope_iff a.scope b.scope (ground (arith, e)) in
    let left : Text → Key = λ c. record { client = c; scope = a.scope } in
    let right : Scope → Key = λ s. record { client = b.client; scope = s } in
    ap left clients ∙ ap right scopes

hits_of-without :
    (k key : Key) (bs : Buckets)
    → same_key k key ≡ false
    → hits_of k (without key bs) ≡ hits_of k bs
unfolding hits_of without
hits_of-without k key [] ne = refl
hits_of-without k key ((j, hits) ∷ bs) ne = elim (Bool-cases (same_key key j)) [
  | inl here ↦
      let apart : same_key k j ≡ false =
        subst (λ l. same_key k l ≡ false) (same_key_iff key j here) ne in
      rw (here, apart) (hits_of-without k key bs ne)
  | inr there ↦ rw there (ground (arith, hits_of-without k key bs ne))
]

hits_of-append :
    (k key : Key) (hits : List ℕ) (bs : Buckets)
    → same_key k key ≡ false
    → hits_of k (bs ++ (key, hits) ∷ []) ≡ hits_of k bs
unfolding hits_of
hits_of-append k key hits [] ne = rw ne
hits_of-append k key hits ((j, b) ∷ bs) ne = ground (arith, hits_of-append k key hits bs ne)

evict_within : (bs : Buckets) → length bs ≤ max_tracked_clients → evict bs ≡ bs
unfolding evict
evict_within [] h = refl
evict_within (b ∷ bs) h = ground arith

conclude-other :
    (others : Buckets) (k key : Key) (r : List ℕ × Verdict)
    → same_key k key ≡ false
    → length others < max_tracked_clients
    → hits_of k (conclude others key r).0 ≡ hits_of k others
unfolding conclude
conclude-other others k key (hits, allowed) ne h =
    rw
      (evict_within (others ++ (key, hits) ∷ [])
        (omega (arith, length-append others ((key, hits) ∷ []), h)))
      (hits_of-append k key hits others ne)
conclude-other others k key (hits, retry_after wait) ne h = hits_of-append k key hits others ne

-- While the table has room, a request does not touch the bucket of any other client or scope.
pub check-other :
    (limit window stamp : ℕ) (k key : Key) (bs : Buckets)
    → same_key k key ≡ false
    → length bs < max_tracked_clients
    → hits_of k (check limit window stamp key bs).0 ≡ hits_of k bs
unfolding check
check-other limit window stamp k key bs ne h = elim (Bool-cases (limit == 0)) [
  | inl off ↦ rw off
  | inr on ↦ rw on (
      conclude-other (without key bs) k key _ ne (omega (arith, length-without key bs, h))
      ∙ hits_of-without k key bs ne)
]

check-fresh :
    (limit window stamp : ℕ) (key : Key) (bs : Buckets)
    → hits_of key bs ≡ []
    → (check limit window stamp key bs).1 ≡ allowed
unfolding check
check-fresh limit window stamp key bs e = elim (Bool-cases (limit == 0)) [
  | inl off ↦ rw off
  | inr on ↦
      (check-admit limit window stamp key bs on).1
      ∙ ap (λ hits. (admit limit window stamp hits).1) e
      ∙ ap (λ p. p.1) (admit-new limit window stamp)
]

-- A request whose client has no hits in the table goes through, at every budget: with a fresh
-- value of the header `X-API-Key`, whether or not it is a key, a sender has no limit.
pub middleware-fresh_client :
    (settings : Settings) (now : ℕ) (r : Request) (bs : Buckets)
    → ((scope : Scope) → hits_of (record { client = client_id r; scope = scope }) bs ≡ [])
    → (middleware settings now r bs).1 ≡ next
unfolding middleware
middleware-fresh_client settings now r bs fresh = elim (Bool-cases (member r.path exempt_paths)) [
  | inl exempt ↦ rw exempt
  | inr limited ↦ rw limited (ap answer_of (check-fresh _ minute now _ bs (fresh _)))
]
