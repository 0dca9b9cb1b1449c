-- ===== src/Health/Pods/Pending.antt =====
-- `CheckPendingPods` of pkg/common/cluster/healthchecks/pods.go: what the tracker's count comes to.
use osde2e.Prelude.{
  ℕ, suc, ◌+◌, ◌≡◌, refl, sym, subst, ◌↔◌, ◌⊎◌, inl, inr, String, true, false, none, List, [], ◌∷◌,
  arith, str_eq, count_if, All, Any, All-map, All-Any_meet, Bool-cases,
}
use text.Mathlib.TextEquality.{eq_iff}
use osde2e.Prelude.Int.{ℤ, pos, ltb_ℤ}
use osde2e.Go.{Error}
use osde2e.Prelude.Maps.{lookup, assign, lookup-assign}
use osde2e.Health.Pods.{Pod, PodErrorTracker, count_of, count_pending, check_pending_pods}

-- How many of the pods have the identifier.
abbrev pub times : String → List Pod → ℕ
times uid pods = count_if (λ p. str_eq uid p.uid) pods

abbrev Below : ℤ → List (String × ℕ) → List Pod → Pod → Type 0
Below threshold temp pods q =
    ltb_ℤ (pos (count_of (lookup q.uid temp) + times q.uid pods)) threshold ≡ true

zero_or_some :
    (uid : String) (pods : List Pod)
    → (times uid pods ≡ 0) ⊎ Any (λ p. str_eq uid p.uid ≡ true) pods
zero_or_some uid [] = inl refl
zero_or_some uid (p ∷ ps) = elim (Bool-cases (str_eq uid p.uid)) [
  | inl t ↦ inr (inl t)
  | inr f ↦ elim (zero_or_some uid ps) [ inl z ↦ inl (rw f z) | inr a ↦ inr (inr a) ]
]

-- The count of a pod in the new map and the later pods is its count in the old one and all of them.
moved :
    (pod : Pod) (pods : List Pod) (temp : List (String × ℕ)) (q : Pod)
    → count_of (lookup q.uid (assign pod.uid (suc (count_of (lookup pod.uid temp))) temp))
        + times q.uid pods
      ≡ count_of (lookup q.uid temp) + times q.uid (pod ∷ pods)
moved pod pods temp q = elim (Bool-cases (str_eq q.uid pod.uid)) [
  | inl t ↦
      let e : q.uid ≡ pod.uid = (eq_iff q.uid pod.uid).0 t in
      let t' : str_eq pod.uid q.uid ≡ true = (eq_iff pod.uid q.uid).1 (sym e) in
      rw (lookup-assign pod.uid q.uid (suc (count_of (lookup pod.uid temp))) temp, t, t', ← e)
        (omega arith)
  | inr f ↦
      let f' : str_eq pod.uid q.uid ≡ false = elim (Bool-cases (str_eq pod.uid q.uid)) [
        | inl t ↦
            absurd
              (let b = (eq_iff q.uid pod.uid).1 (sym ((eq_iff pod.uid q.uid).0 t)) in ground arith)
        | inr n ↦ n
      ] in
      rw (lookup-assign pod.uid q.uid (suc (count_of (lookup pod.uid temp))) temp, f, f') refl
]

head_total :
    (threshold : ℤ) (pod : Pod) (pods : List Pod) (temp : List (String × ℕ))
    → ltb_ℤ (pos (suc (count_of (lookup pod.uid temp)))) threshold ≡ true
    → All (Below threshold temp (pod ∷ pods)) pods
    → Below threshold temp (pod ∷ pods) pod
head_total threshold pod pods temp below rest =
    let own : str_eq pod.uid pod.uid ≡ true = (eq_iff pod.uid pod.uid).1 refl in
    elim (zero_or_some pod.uid pods) [
      | inl z ↦ rw own (ground (arith, z, below))
      | inr a ↦
          let (q, b, t) =
            All-Any_meet (Below threshold temp (pod ∷ pods)) (λ p. str_eq pod.uid p.uid ≡ true) pods
              rest a in
          subst
            (λ uid.
              ltb_ℤ (pos (count_of (lookup uid temp) + times uid (pod ∷ pods))) threshold ≡ true)
            (sym ((eq_iff pod.uid q.uid).0 t)) b
    ]

abbrev IsCounted : {A : Type 0} → Error ⊎ A → Type 0
IsCounted (inl e) = ⊥
IsCounted (inr a) = Unit

beyond :
    (threshold : ℤ) (n m : ℕ)
    → ltb_ℤ (pos (suc n)) threshold ≡ false
    → ltb_ℤ (pos (n + suc m)) threshold ≡ true
    → ⊥
beyond threshold n m f t = ground arith

pub sum_cases : {A B : Type 0} (s : A ⊎ B) → ((a : A) × (s ≡ inl a)) ⊎ ((b : B) × (s ≡ inr b))
sum_cases (inl a) = inl (a, refl)
sum_cases (inr b) = inr (b, refl)

count_pending_iff :
    (threshold : ℤ) (pods : List Pod) (temp : List (String × ℕ))
    → IsCounted (count_pending threshold pods temp) ↔ All (Below threshold temp pods) pods
unfolding count_pending
count_pending_iff threshold [] temp = (λ k. tt, λ k. tt)
count_pending_iff threshold (pod ∷ pods) temp =
    let (to, back) =
      count_pending_iff threshold pods
        (assign pod.uid (suc (count_of (lookup pod.uid temp))) temp) in
    elim (Bool-cases (ltb_ℤ (pos (suc (count_of (lookup pod.uid temp)))) threshold)) [
      | inl t ↦ rw t (
        λ k.
            let rest =
              All-map
                (Below threshold (assign pod.uid (suc (count_of (lookup pod.uid temp))) temp) pods)
                (Below threshold temp (pod ∷ pods)) (λ q b. rw (← moved pod pods temp q) b) pods
                (to k) in
            (head_total threshold pod pods temp t rest, rest),
        λ k. back (
            All-map (Below threshold temp (pod ∷ pods))
              (Below threshold (assign pod.uid (suc (count_of (lookup pod.uid temp))) temp) pods)
              (λ q b. rw (moved pod pods temp q) b) pods k.1),
      )
      | inr f ↦ rw f (
        λ k. absurd k,
        λ k.
            let own : str_eq pod.uid pod.uid ≡ true = (eq_iff pod.uid pod.uid).1 refl in
            let b = k.0 in absurd (beyond threshold _ _ f (rw own at b)),
      )
    ]

tracker_iff :
    (pods : List Pod) (p : PodErrorTracker)
    → ((check_pending_pods pods p).0 ≡ none)
      ↔ IsCounted (count_pending p.max_pending_pods_threshold pods [])
unfolding check_pending_pods
tracker_iff pods p = elim (sum_cases (count_pending p.max_pending_pods_threshold pods [])) [
  | inl (e, q) ↦ rw (q, check_pending_pods) (λ k. absurd (cc), λ k. absurd k)
  | inr (t, q) ↦ rw (q, check_pending_pods) (λ k. tt, λ k. refl)
]

-- The check of the pending pods has no error exactly when every pod stands in the list less often
-- than the threshold says, so the counts of an earlier call never matter.
pub check_pending_pods_lem :
    (pods : List Pod) (p : PodErrorTracker)
    → ((check_pending_pods pods p).0 ≡ none)
      ↔ All (λ q. ltb_ℤ (pos (times q.uid pods)) p.max_pending_pods_threshold ≡ true) pods
unfolding lookup
check_pending_pods_lem pods p =
    let (a, b) = tracker_iff pods p in
    let (c, d) = count_pending_iff p.max_pending_pods_threshold pods [] in
    let Few : Pod → Type 0 =
      λ q. ltb_ℤ (pos (times q.uid pods)) p.max_pending_pods_threshold ≡ true in
    let Less = Below p.max_pending_pods_threshold [] pods in
    (
      λ k. All-map Less Few (λ q h. ground (arith, h)) pods (c (a k)),
      λ k. b (d (All-map Few Less (λ q h. ground (arith, h)) pods k)),
    )
