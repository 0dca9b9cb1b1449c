-- ===== src/Ocm/Reserve/Candidates.antt =====
-- Which cluster of the reserve is claimed.
use osde2e.Prelude.{
  ◌≡◌, refl, inl, inr, Option, none, some, List, [], ◌∷◌, Bool-cases, keep_if, find_first,
}
use osde2e.Ocm.Provider.{OcmCluster}
use osde2e.Ocm.Reserve.{is_ready, is_installing, choose_candidate}

abbrev pub last_or : Option OcmCluster → List OcmCluster → Option OcmCluster
last_or c [] = c
last_or c (d ∷ ds) = last_or (some d) ds

abbrev pub first_or : Option OcmCluster → Option OcmCluster → Option OcmCluster
first_or none d = d
first_or (some c) d = some c

-- The candidate is the first ready cluster of the listing; when none is ready it is the last one that
-- installs, and without one of these the one from before.
pub choose_candidate_lem :
    (c : Option OcmCluster) (cs : List OcmCluster)
    → choose_candidate c cs
      ≡ first_or
          (find_first (λ d. is_ready d.state) cs)
          (last_or c (keep_if (λ d. is_installing d.state) cs))
unfolding choose_candidate
choose_candidate_lem c [] = refl
choose_candidate_lem c (d ∷ ds) = elim (Bool-cases (is_ready d.state)) [
  | inl r ↦ rw r refl
  | inr r ↦ elim (Bool-cases (is_installing d.state)) [
    | inl i ↦ rw (r, i) (choose_candidate_lem (some d) ds)
    | inr i ↦ rw (r, i) (choose_candidate_lem c ds)
  ]
]
