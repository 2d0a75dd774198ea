-- ===== src/RateLimit/Window.antt =====
-- One bucket of api/ratelimit.py against the log of all requests that it allowed.
use postgre_data_migration_a.Prelude.{
  ℕ, ◌+◌, ◌-◌, ◌≤◌, ◌<◌, true, false, List, [], ◌∷◌, ◌++◌, ◌≡◌, refl, sym, ap, ◌∙◌, inl, inr, arith,
  length, length-append, All-append, leb, ltb, if◌then◌else◌, Bool-cases, subst,
}
use postgre_data_migration_a.RateLimit.{retry_after, popleft, decide, admit}
use postgre_data_migration_a.RateLimit.Log.{
  recent, recent-append, popleft-popleft, IsBelow, popleft-concat, IsBelow-mono, IsBelow-popleft,
  length-popleft, IsYoung, popleft-IsYoung, IsOrdered, Tracks, is_free, log_after, is_allowed,
  admit_all, specify,
}

module _ (limit window : ℕ) (pos : 0 < limit) where
  decide_lem :
      (stamp : ℕ) (left : List ℕ)
      → is_allowed (decide limit window stamp left).1 ≡ ltb (length left) limit
  unfolding decide
  decide_lem stamp [] = ground arith
  decide_lem stamp (h ∷ left) = ground arith

  decide-hits :
      (stamp : ℕ) (left : List ℕ)
      → (decide limit window stamp left).0
        ≡ (if ltb (length left) limit then left ++ stamp ∷ [] else left)
  unfolding decide
  decide-hits stamp [] = ground arith
  decide-hits stamp (h ∷ left) = ground arith

  -- A request is allowed exactly if fewer than `limit` allowed requests are in its window.
  pub admit-is_free :
      (last stamp : ℕ) (hits log : List ℕ)
      → Tracks limit window last hits log
      → last ≤ stamp
      → is_allowed (admit limit window stamp hits).1 ≡ is_free limit window stamp log
  unfolding admit
  admit-is_free last stamp hits log h le =
      decide_lem stamp (popleft window stamp hits)
      ∙ ap (λ l. ltb (length l) limit) (h.view stamp le)

  admit-Tracks :
      (last stamp : ℕ) (hits log : List ℕ)
      → Tracks limit window last hits log
      → last ≤ stamp
      → Tracks limit window stamp
          (admit limit window stamp hits).0
          (log_after limit window stamp log)
  unfolding admit
  admit-Tracks last stamp hits log h le =
      let left = popleft window stamp hits in
      let same_left : left ≡ recent window stamp log = h.view stamp le in
      let before : IsBelow stamp left =
        IsBelow-popleft window stamp stamp hits (IsBelow-mono last stamp hits le h.below) in
      let seen : (t : ℕ) → stamp ≤ t → popleft window t left ≡ recent window t log =
        λ t e. popleft-popleft window stamp t hits e ∙ h.view t (omega (arith, le, e)) in
      elim (Bool-cases (ltb (length left) limit)) [
        | inl free ↦
            let free_log : ltb (length (recent window stamp log)) limit ≡ true =
              subst (λ l. ltb (length l) limit ≡ true) same_left free in
            rw (decide-hits stamp left, free, free_log)
              (record {
                view = λ t e.
                    popleft-concat window stamp t left before
                    ∙ ap (λ l. l ++ recent window t (stamp ∷ [])) (seen t e)
                    ∙ sym (recent-append window t log (stamp ∷ []));
                below = All-append (λ h. h ≤ stamp) left (stamp ∷ []) before (omega arith, tt);
                short = ground (arith, length-append left (stamp ∷ []), free);
              })
        | inr full ↦
            let full_log : ltb (length (recent window stamp log)) limit ≡ false =
              subst (λ l. ltb (length l) limit ≡ false) same_left full in
            rw (decide-hits stamp left, full, full_log)
              (record {
                view = seen;
                below = before;
                short = omega (arith, length-popleft window stamp hits, h.short);
              })
      ]

  admit_all-Tracks :
      (last : ℕ) (hits log stamps : List ℕ)
      → Tracks limit window last hits log
      → IsOrdered last stamps
      → admit_all limit window hits stamps ≡ specify limit window log stamps
  unfolding admit_all specify
  admit_all-Tracks last hits log [] h o = refl
  admit_all-Tracks last hits log (stamp ∷ stamps) h o =
      let later =
        admit_all-Tracks stamp (admit limit window stamp hits).0 (log_after limit window stamp log)
          stamps (admit-Tracks last stamp hits log h o.0) o.1 in
      cc (admit-is_free last stamp hits log h o.0, later)

  -- On requests in the order of their times, a fresh bucket, which forgets old hits, gives the
  -- verdicts of the log of all allowed requests: each is allowed exactly if fewer than `limit`
  -- requests were allowed in the window before it.
  pub admit_all-specify :
      (stamps : List ℕ)
      → IsOrdered 0 stamps
      → admit_all limit window [] stamps ≡ specify limit window [] stamps
  unfolding popleft
  admit_all-specify stamps o =
      admit_all-Tracks 0 [] [] stamps
        (record { view = λ t e. unfold recent in refl; below = tt; short = omega arith }) o

  popleft_head :
      (stamp t h : ℕ) (hits : List ℕ)
      → stamp < h + window
      → length (h ∷ hits) ≡ limit
      → ltb (length (popleft window t (h ∷ hits))) limit ≡ leb (stamp + (h + window - stamp)) t
  unfolding popleft
  popleft_head stamp t h hits young full = ground (arith, length-popleft window t hits, young, full)

  after_head :
      (stamp t h : ℕ) (hits : List ℕ)
      → stamp < h + window
      → length (h ∷ hits) ≡ limit
      → is_allowed (admit limit window t (h ∷ hits)).1 ≡ leb (stamp + (h + window - stamp)) t
  unfolding admit
  after_head stamp t h hits young full =
      decide_lem t (popleft window t (h ∷ hits)) ∙ popleft_head stamp t h hits young full

  after_refusal :
      (stamp wait : ℕ) (left : List ℕ)
      → IsYoung window stamp left
      → length left ≤ limit
      → (decide limit window stamp left).1 ≡ retry_after wait
      → (0 < wait)
        × ((t : ℕ)
            → is_allowed (admit limit window t (decide limit window stamp left).0).1
              ≡ leb (stamp + wait) t)
  unfolding decide
  after_refusal stamp wait [] y s e = cc
  after_refusal stamp wait (h ∷ hits) y s e = elim (Bool-cases (leb limit (length (h ∷ hits)))) [
    | inl full ↦
        let same_verdict : retry_after (h + window - stamp) ≡ retry_after wait = rw full at e in
        let same_wait : h + window - stamp ≡ wait = cc same_verdict in
        (
          omega (arith, y, same_wait),
          λ t. rw full (
              after_head stamp t h hits y (ground (arith, s, full))
              ∙ ap (λ w. leb (stamp + w) t) same_wait),
        )
    | inr free ↦ cc (rw free at e)
  ]

  -- If a bucket with at most as many hits as the limit refuses a request and tells it to wait, then
  -- the wait is positive, and the next request that this bucket sees, at any time, is allowed exactly
  -- if the wait has passed.
  pub admit-retry_after :
      (stamp wait : ℕ) (hits : List ℕ)
      → length hits ≤ limit
      → (admit limit window stamp hits).1 ≡ retry_after wait
      → (0 < wait)
        × ((t : ℕ)
            → is_allowed (admit limit window t (admit limit window stamp hits).0).1
              ≡ leb (stamp + wait) t)
  unfolding admit
  admit-retry_after stamp wait hits s e =
      after_refusal stamp wait (popleft window stamp hits) (popleft-IsYoung window stamp hits)
        (omega (arith, length-popleft window stamp hits, s)) e
