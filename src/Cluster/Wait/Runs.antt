-- ===== src/Cluster/Wait/Runs.antt =====
-- The rounds of the wait in pkg/common/cluster/clusterutil.go, and the clean polls in a row.
use osde2e.Prelude.{
  ℕ, zero, suc, ◌+◌, ◌^◌, ◌≤◌, ◌<◌, ◌≡◌, refl, ap, sym, subst, ◌↔◌, ◌⊎◌, inl, inr, String, true,
  false, List, [], ◌∷◌, ◌++◌, arith, if◌then◌else◌, length, All, Bool-cases, ◌==◌, ==_iff,
}
use osde2e.Prelude.Int.{ℤ, pos, add_int_pos}
use osde2e.Cluster.Wait.{Round, Waiting, wait_round, wait_rounds, new_wait}

-- The rounds are some rounds, then the clean ones in a row, then the rest.
abbrev pub HasCleanRun : ℕ → List Round → Type 0
HasCleanRun n rounds =
    (before : List Round) × (clean : List Round) × (rest : List Round) × (rounds
      ≡ before ++ (clean ++ rest))
    × All (λ r. r.health.healthy ≡ true) clean
    × (length clean ≡ n)

-- The counters after so many clean rounds in a row.
abbrev Counted : ℕ → Waiting → Type 0
Counted c w = (w.clean_runs ≡ pos c) × (0 < c → w.err_runs ≡ pos 0)

module _ (n : ℕ) (status : String) (bounded : suc n < 2 ^ 63) where
  clean_round :
      (r : Round) (c : ℕ) (w : Waiting)
      → c ≤ n
      → Counted c w
      → r.health.healthy ≡ true
      → ((wait_round (pos (suc n)) status r w).0 ≡ (c == n))
        × Counted (suc c) (wait_round (pos (suc n)) status r w).1
  unfolding wait_round
  clean_round r c w le (counted, errs) h =
      rw (h, counted, add_int_pos c 1 (omega arith)) (ground arith, (ground arith, λ p. refl))

  bad_round :
      (r : Round) (c : ℕ) (w : Waiting)
      → c ≤ n
      → Counted c w
      → r.health.healthy ≡ false
      → ((wait_round (pos (suc n)) status r w).0 ≡ false)
        × Counted 0 (wait_round (pos (suc n)) status r w).1
  unfolding wait_round
  bad_round r zero w le (counted, errs) h = ground arith
  bad_round r (suc c) w le (counted, errs) h = rw (h, errs (omega arith)) (ground arith)

  -- One round of the poll, when the cluster is ready: a clean one and any other.
  rounds_step :
      (r : Round) (rs : List Round) (w : Waiting)
      → wait_rounds (pos (suc n)) status true (r ∷ rs) w ≡ (
          if (wait_round (pos (suc n)) status r w).0
          then (true, (wait_round (pos (suc n)) status r w).1)
          else wait_rounds (pos (suc n)) status true rs (wait_round (pos (suc n)) status r w).1)
  unfolding wait_rounds
  rounds_step r rs w = refl

  -- What is left of a run of clean rounds that has begun, or a whole one later.
  abbrev Rest : ℕ → List Round → Type 0
  Rest c rs =
      ((clean : List Round) × (rest : List Round) × (rs ≡ clean ++ rest)
        × All (λ r. r.health.healthy ≡ true) clean
        × (length clean + c ≡ suc n))
      ⊎ HasCleanRun (suc n) rs

  begun_or_later : (rs : List Round) → Rest 0 rs → HasCleanRun (suc n) rs
  begun_or_later rs (inl (clean, rest, e, h, l)) = ([], clean, rest, e, h, omega (arith, l))
  begun_or_later rs (inr run) = run

  later : (r : Round) (rs : List Round) → HasCleanRun (suc n) rs → HasCleanRun (suc n) (r ∷ rs)
  later r rs (before, clean, rest, e, h, l) = (r ∷ before, clean, rest, ap (λ l. r ∷ l) e, h, l)

  over_has_run :
      (rs : List Round) (c : ℕ) (w : Waiting)
      → c ≤ n
      → Counted c w
      → (wait_rounds (pos (suc n)) status true rs w).0 ≡ true
      → Rest c rs
  unfolding wait_rounds
  over_has_run [] c w le counted over = absurd (ground arith)
  over_has_run (r ∷ rs) c w le counted over = elim (Bool-cases r.health.healthy) [
    | inl t ↦
        let (flag, counted') = clean_round r c w le counted t in
        elim (Bool-cases (c == n)) [
          | inl last ↦
              let q : c ≡ n = (==_iff c n).0 last in
              inl (r ∷ [], rs, refl, (t, tt), omega (arith, q))
          | inr more ↦
              let stays : (wait_rounds (pos (suc n)) status true rs
                    (wait_round (pos (suc n)) status r w).1).0
                  ≡ true =
                rw (rounds_step r rs w, flag, more) at over in
              elim (over_has_run rs (suc c) (wait_round (pos (suc n)) status r w).1 (ground arith)
                counted' stays) [
                  | inl (clean, rest, e, h, l) ↦
                      inl (r ∷ clean, rest, ap (λ l. r ∷ l) e, (t, h), omega (arith, l))
                  | inr run ↦ inr (later r rs run)
                ]
        ]
    | inr f ↦
        let (flag, counted') = bad_round r c w le counted f in
        let stays : (wait_rounds (pos (suc n)) status true rs
              (wait_round (pos (suc n)) status r w).1).0
            ≡ true =
          rw (rounds_step r rs w, flag) at over in
        inr (
          later r rs (
            begun_or_later rs (
              over_has_run rs 0 (wait_round (pos (suc n)) status r w).1 (omega arith) counted'
                stays)))
  ]

  clean_is_over :
      (clean rest : List Round) (c : ℕ) (w : Waiting)
      → c ≤ n
      → Counted c w
      → All (λ r. r.health.healthy ≡ true) clean
      → suc n ≤ length clean + c
      → (wait_rounds (pos (suc n)) status true (clean ++ rest) w).0 ≡ true
  clean_is_over [] rest c w le counted h l = absurd (omega arith)
  clean_is_over (r ∷ clean) rest c w le counted h l =
      let (flag, counted') = clean_round r c w le counted h.0 in
      elim (Bool-cases (c == n)) [
        | inl last ↦ rw (rounds_step r (clean ++ rest) w, flag, last) refl
        | inr more ↦
            rw (rounds_step r (clean ++ rest) w, flag, more)
              (clean_is_over clean rest (suc c) (wait_round (pos (suc n)) status r w).1
                (ground arith) counted' h.1 (omega arith))
      ]

  run_is_over :
      (before clean rest : List Round) (c : ℕ) (w : Waiting)
      → c ≤ n
      → Counted c w
      → All (λ r. r.health.healthy ≡ true) clean
      → length clean ≡ suc n
      → (wait_rounds (pos (suc n)) status true (before ++ (clean ++ rest)) w).0 ≡ true
  run_is_over [] clean rest c w le counted h l =
      clean_is_over clean rest c w le counted h (omega (arith, l))
  run_is_over (r ∷ before) clean rest c w le counted h l = elim (Bool-cases r.health.healthy) [
    | inl t ↦
        let (flag, counted') = clean_round r c w le counted t in
        elim (Bool-cases (c == n)) [
          | inl last ↦ rw (rounds_step r (before ++ (clean ++ rest)) w, flag, last) refl
          | inr more ↦
              rw (rounds_step r (before ++ (clean ++ rest)) w, flag, more)
                (run_is_over before clean rest (suc c) (wait_round (pos (suc n)) status r w).1
                  (ground arith) counted' h l)
        ]
    | inr f ↦
        let (flag, counted') = bad_round r c w le counted f in
        rw (rounds_step r (before ++ (clean ++ rest)) w, flag)
          (run_is_over before clean rest 0 (wait_round (pos (suc n)) status r w).1 (omega arith)
            counted' h l)
  ]

  -- For a ready cluster and a number of needed clean runs from 1 to 2^63 - 1, the wait from fresh
  -- counters is over within the rounds exactly when so many of the rounds in a row are clean.
  pub wait_rounds_lem :
      (rounds : List Round)
      → ((wait_rounds (pos (suc n)) status true rounds new_wait).0 ≡ true)
        ↔ HasCleanRun (suc n) rounds
  wait_rounds_lem rounds = (
    λ over.
        begun_or_later rounds (over_has_run rounds 0 new_wait (omega arith) (refl, λ p. refl) over),
    λ run.
        let (before, clean, rest, e, h, l) = run in
        subst (λ rs. (wait_rounds (pos (suc n)) status true rs new_wait).0 ≡ true) (sym e)
          (run_is_over before clean rest 0 new_wait (omega arith) (refl, λ p. refl) h l),
  )

-- The rounds of a cluster that is not ready.
pub wait_rounds_not_ready :
    (needed : ℤ) (status : String) (rounds : List Round) (w : Waiting)
    → wait_rounds needed status false rounds w ≡ (false, w)
unfolding wait_rounds
wait_rounds_not_ready needed status [] w = refl
wait_rounds_not_ready needed status (r ∷ rs) w = wait_rounds_not_ready needed status rs w
