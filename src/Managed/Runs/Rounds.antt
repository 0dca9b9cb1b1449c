-- ===== src/Managed/Runs/Rounds.antt =====
-- upgrade.go: the poll of `RunUpgrade`, and what its rounds show of the upgrade.
use osde2e.Prelude.{
  ◌≡◌, refl, ap, sym, ◌∙◌, subst, ◌↔◌, ◌⊎◌, inl, inr, String, Bool, true, false, Option, none, some,
  List, [], ◌∷◌, ◌++◌, arith, str_eq, All, Bool-cases, some_eq,
}
use text.Mathlib.TextEquality.{eq_iff}
use osde2e.Go.{Error}
use osde2e.Go.Calls.{Reply, replied, refused, Run, ends}
use osde2e.Managed.{Call}
use osde2e.Managed.Trigger.{UpgradeConfig, History}
use osde2e.Managed.Progress.{Snapshot, without_config, by_history, by_list, is_managed_upgrade_done}
use osde2e.Managed.Runs.{UpgradeRound, judge_round, upgrade_rounds}

-- The history of the version that the UpgradeConfig asks for has the phase.
abbrev pub HasPhase : String → UpgradeConfig → Type 0
HasPhase phase uc =
    (h : History) × (uc.get_history uc.desired_version ≡ some h) × (str_eq h.phase phase ≡ true)

-- The cluster's UpgradeConfig has a history with the phase.
abbrev pub Shows : String → Snapshot → Type 0
Shows phase s = (uc : UpgradeConfig) × (s.listed ≡ replied (some (replied uc))) × HasPhase phase uc

abbrev pub Upgraded : Snapshot → Type 0
Upgraded s = Shows "Upgraded" s

-- The cluster has no UpgradeConfig, and the provider is lost or has no policy.
abbrev pub Abandoned : Snapshot → Type 0
Abandoned s =
    (s.listed ≡ replied none)
    × (((e : Error) × (s.provider ≡ refused e))
        ⊎ (((u : Unit) × (s.provider ≡ replied u)) × (s.policy ≡ replied "")))

-- The upgrade cannot be followed any longer: it has failed, its configuration is damaged, or it is
-- abandoned.
abbrev pub Broken : Snapshot → Type 0
Broken s =
    Shows "Failed" s ⊎ (((e : Error) × (s.listed ≡ replied (some (refused e)))) ⊎ Abandoned s)

abbrev IsError : Bool × Option Error → Type 0
IsError (b, none) = ⊥
IsError (b, some e) = Unit

apart : ◌≡◌ {A = String} "Upgraded" "Failed" → ⊥
apart e = let t = (eq_iff "Upgraded" "Failed").1 e in cc

both_phases : (h : History) → str_eq h.phase "Upgraded" ≡ true → str_eq h.phase "Failed" ≡ true → ⊥
both_phases h u f =
    let e = (eq_iff h.phase "Upgraded").0 u in
    let e' = (eq_iff h.phase "Failed").0 f in apart (sym e ∙ e')

history_done :
    (o : Option History)
    → (by_history o ≡ (true, none))
      ↔ ((h : History) × (o ≡ some h) × (str_eq h.phase "Upgraded" ≡ true))
history_done none = (λ k. absurd (cc), λ k. absurd (let (h, e, t) = k in cc))
history_done (some h) = elim (Bool-cases (str_eq h.phase "Failed")) [
  | inl f ↦
      rw f (
        λ k. absurd (cc),
        λ k. absurd (let (g, e, t) = k in both_phases h (rw (← some_eq e) at t) f),
      )
  | inr f ↦ elim (Bool-cases (str_eq h.phase "Upgraded")) [
    | inl u ↦ rw (f, u) (λ k. (h, refl, u), λ k. refl)
    | inr u ↦
        rw (f, u)
          (
            λ k. absurd (cc),
            λ k. absurd (
                let (g, e, t) = k in
                let t' : str_eq h.phase "Upgraded" ≡ true = rw (some_eq e) t in ground arith),
          )
  ]
]

history_broken :
    (o : Option History)
    → IsError (by_history o) ↔ ((h : History) × (o ≡ some h) × (str_eq h.phase "Failed" ≡ true))
history_broken none = (λ k. absurd k, λ k. absurd (let (h, e, t) = k in cc))
history_broken (some h) = elim (Bool-cases (str_eq h.phase "Failed")) [
  | inl f ↦ rw f (λ k. (h, refl, f), λ k. tt)
  | inr f ↦ elim (Bool-cases (str_eq h.phase "Upgraded")) [
    | inl u ↦
        rw (f, u)
          (
            λ k. absurd k,
            λ k. absurd (
                let (g, e, t) = k in
                let t' : str_eq h.phase "Failed" ≡ true = rw (some_eq e) t in ground arith),
          )
    | inr u ↦
        rw (f, u)
          (
            λ k. absurd k,
            λ k. absurd (
                let (g, e, t) = k in
                let t' : str_eq h.phase "Failed" ≡ true = rw (some_eq e) t in ground arith),
          )
  ]
]

replied_same : {A : Type 0} {a b : A} → replied a ≡ replied b → a ≡ b
replied_same e = cc

listed_same :
    {u v : UpgradeConfig} → replied (some (replied u)) ≡ replied (some (replied v)) → u ≡ v
listed_same e = cc

without_not_done : (p : Reply Unit) (q : Reply String) → without_config p q ≡ (true, none) → ⊥
without_not_done (refused e) q k = cc
without_not_done (replied u) (refused e) k = cc
without_not_done (replied u) (replied policy) k = elim (Bool-cases (str_eq policy "")) [
  | inl t ↦ let h = rw t at k in cc
  | inr f ↦ let h = rw f at k in cc
]

without_broken :
    (p : Reply Unit) (q : Reply String)
    → IsError (without_config p q)
      ↔ (((e : Error) × (p ≡ refused e)) ⊎ (((u : Unit) × (p ≡ replied u)) × (q ≡ replied "")))
without_broken (refused e) q = (λ k. inl (e, refl), λ k. tt)
without_broken (replied u) (refused e) =
    (λ k. absurd k, λ k. elim k [ inl (x, h) ↦ absurd (cc) | inr (h, x) ↦ absurd (cc) ])
without_broken (replied u) (replied policy) = elim (Bool-cases (str_eq policy "")) [
  | inl t ↦ rw t (λ k. inr ((u, refl), ap replied ((eq_iff policy "").0 t)), λ k. tt)
  | inr f ↦ rw f (
    λ k. absurd k,
    λ k. elim k [
      | inl (x, h) ↦ absurd (cc)
      | inr (h, x) ↦ absurd (let t = (eq_iff policy "").1 (replied_same x) in ground arith)
    ],
  )
]

module _ (s : Snapshot) where
  -- The first result is true, without an error, exactly when the upgrade is done.
  upgraded_iff :
      (l : Reply (Option (Reply UpgradeConfig)))
      → (by_list s l ≡ (true, none))
        ↔ ((uc : UpgradeConfig) × (l ≡ replied (some (replied uc))) × HasPhase "Upgraded" uc)
  upgraded_iff (refused e) = (λ k. absurd (cc), λ k. absurd (let (uc, h, p) = k in cc))
  upgraded_iff (replied none) =
      (λ k. absurd (without_not_done s.provider s.policy k), λ k. absurd (let (uc, h, p) = k in cc))
  upgraded_iff (replied (some (refused e))) =
      (λ k. absurd (cc), λ k. absurd (let (uc, h, p) = k in cc))
  upgraded_iff (replied (some (replied uc))) =
      let (to, back) = history_done (uc.get_history uc.desired_version) in
      (
        λ k. (uc, refl, to k),
        λ k. let (d, h, p) = k in back (subst (HasPhase "Upgraded") (sym (listed_same h)) p),
      )

  broken_iff :
      (l : Reply (Option (Reply UpgradeConfig)))
      → IsError (by_list s l) ↔ (
          ((uc : UpgradeConfig) × (l ≡ replied (some (replied uc))) × HasPhase "Failed" uc)
          ⊎ (((e : Error) × (l ≡ replied (some (refused e))))
              ⊎ ((l ≡ replied none)
                  × (((e : Error) × (s.provider ≡ refused e))
                      ⊎ (((u : Unit) × (s.provider ≡ replied u)) × (s.policy ≡ replied ""))))))
  broken_iff (refused e) = (
    λ k. absurd k,
    λ k. elim k [
      | inl (uc, h, p) ↦ absurd (cc)
      | inr (inl (x, h)) ↦ absurd (cc)
      | inr (inr (h, p)) ↦ absurd (cc)
    ],
  )
  broken_iff (replied none) =
      let (to, back) = without_broken s.provider s.policy in
      (
        λ k. inr (inr (refl, to k)),
        λ k. elim k [
          | inl (uc, h, p) ↦ absurd (cc)
          | inr (inl (x, h)) ↦ absurd (cc)
          | inr (inr (h, p)) ↦ back p
        ],
      )
  broken_iff (replied (some (refused e))) = (λ k. inr (inl (e, refl)), λ k. tt)
  broken_iff (replied (some (replied uc))) =
      let (to, back) = history_broken (uc.get_history uc.desired_version) in
      (
        λ k. inl (uc, refl, to k),
        λ k. elim k [
          | inl (d, h, p) ↦ back (subst (HasPhase "Failed") (sym (listed_same h)) p)
          | inr (inl (x, h)) ↦ absurd (cc)
          | inr (inr (h, p)) ↦ absurd (cc)
        ],
      )

round_ends :
    (r : UpgradeRound) (rs : List UpgradeRound)
    → (upgrade_rounds (r ∷ rs)).end
      ≡ (judge_round (by_list r.snapshot r.snapshot.listed) (upgrade_rounds rs)).end
unfolding upgrade_rounds is_managed_upgrade_done
round_ends r rs = refl

outcomes : (x : Bool × Option Error) → (x ≡ (true, none)) ⊎ ((x ≡ (false, none)) ⊎ IsError x)
outcomes (true, none) = inl refl
outcomes (false, none) = inr (inl refl)
outcomes (b, some e) = inr (inr tt)

heads : {A : Type 0} {x y : A} {xs ys : List A} → x ∷ xs ≡ y ∷ ys → x ≡ y
heads e = cc

tails : {A : Type 0} {x y : A} {xs ys : List A} → x ∷ xs ≡ y ∷ ys → xs ≡ ys
tails e = cc

error_ends :
    (x : Bool × Option Error) (rest : Run Call Unit)
    → IsError x
    → (judge_round x rest).end ≡ ends tt
    → ⊥
error_ends (b, none) rest h k = h
error_ends (b, some e) rest h k = cc

not_error : (x : Bool × Option Error) (b : Bool) → x ≡ (b, none) → IsError x → ⊥
not_error (c, none) b e h = h
not_error (c, some f) b e h = cc

-- The rounds up to one that shows that the upgrade is done, none before it broken.
abbrev pub Succeeds : List UpgradeRound → Type 0
Succeeds rounds =
    (before : List UpgradeRound) × (r : UpgradeRound) × (rest : List UpgradeRound) × (rounds
      ≡ before ++ (r ∷ rest))
    × All (λ x. ¬ Broken x.snapshot) before
    × Upgraded r.snapshot

Succeeds-nil : Succeeds [] → ⊥
Succeeds-nil ([], r, rest, e, h, u) = cc
Succeeds-nil (b ∷ before, r, rest, e, h, u) = cc

-- Either the first round shows it, or the first is not broken and a later one does.
Succeeds-cons :
    (r : UpgradeRound) (rs : List UpgradeRound)
    → Succeeds (r ∷ rs)
    → Upgraded r.snapshot ⊎ ((¬ Broken r.snapshot) × Succeeds rs)
Succeeds-cons r rs ([], x, rest, e, h, u) = inl (subst (λ y. Upgraded y.snapshot) (sym (heads e)) u)
Succeeds-cons r rs (b ∷ before, x, rest, e, h, u) =
    inr (subst (λ y. ¬ Broken y.snapshot) (sym (heads e)) h.0, (before, x, rest, tails e, h.1, u))

-- The poll of an upgrade ends without an error exactly when one of its rounds shows that the upgrade
-- is done and no round before that is broken: shows that it failed, has a damaged configuration, or
-- has no configuration while the provider is lost or without a policy.
pub upgrade_rounds_lem :
    (rounds : List UpgradeRound) → ((upgrade_rounds rounds).end ≡ ends tt) ↔ Succeeds rounds
unfolding upgrade_rounds
upgrade_rounds_lem [] = (λ k. absurd (cc), λ k. absurd (Succeeds-nil k))
upgrade_rounds_lem (r ∷ rs) =
    let (to, back) = upgrade_rounds_lem rs in
    let (up, down) = upgraded_iff r.snapshot r.snapshot.listed in
    let (brk, unbrk) = broken_iff r.snapshot r.snapshot.listed in
    elim (outcomes (by_list r.snapshot r.snapshot.listed)) [
      | inl t ↦ rw (round_ends r rs, t) (λ k. ([], r, rs, refl, tt, up t), λ k. refl)
      | inr (inl f) ↦
          rw (round_ends r rs, f)
            (
              λ k.
                  let (before, x, rest, e, h, u) = to k in
                  (
                    r ∷ before,
                    x,
                    rest,
                    ap (λ l. r ∷ l) e,
                    (λ b. not_error _ false f (unbrk b), h),
                    u,
                  ),
              λ k. elim (Succeeds-cons r rs k) [
                | inl u ↦ absurd (let t = down u in cc)
                | inr (n, later) ↦ back later
              ],
            )
      | inr (inr b) ↦ rw (round_ends r rs) (
        λ k. absurd (error_ends _ (upgrade_rounds rs) b k),
        λ k. absurd (elim (Succeeds-cons r rs k) [
          | inl u ↦ not_error _ true (down u) b
          | inr (n, later) ↦ n (brk b)
        ]),
      )
    ]
