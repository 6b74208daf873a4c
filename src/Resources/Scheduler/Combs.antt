-- ===== src/Resources/Scheduler/Combs.antt =====
-- The choice of groups: a combination of items of the dictionary, and the slots they have in common.
use libensemble.Base.{
  ℕ, zero, suc, ◌≤◌, ◌≡◌, refl, ap, true, false, ◌&&◌, List, [], ◌∷◌, map, Option, none, some,
  arith, ltb, leb, ◌==◌, length, filter, contains, IsDistinct, All, All-append, All-mono, All-map,
  All-filter, contains-filter, filter-IsDistinct, Bool-cases, inl, inr,
}
use libensemble.Resources.Scheduler.Avail.{ByGroup, get_slots_of_len}
use libensemble.Resources.Scheduler.Matching.{
  Candidate, keys, combinations, common, best_match, get_matching_slots,
}
use libensemble.Resources.Scheduler.Groups.{IsSound, IsGrouped}

module _ (Q : ℕ → ℕ → Type 0) where
  -- A choice of `n` items of the dictionary `d`.
  abbrev pub IsComb : ByGroup → ℕ → ByGroup → Type 0
  IsComb d n comb =
      All (IsSound Q) comb
      × IsDistinct (keys comb)
      × (length comb ≡ n)
      × ((k : ℕ) → contains k (keys comb) ≡ true → contains k (keys d) ≡ true)

  combinations-IsComb : (d : ByGroup) (n : ℕ) → IsGrouped Q d → All (IsComb d n) (combinations d n)
  unfolding combinations
  combinations-IsComb d zero h = ((tt, tt, refl, λ k m. absurd cc), tt)
  combinations-IsComb [] (suc n) h = tt
  combinations-IsComb (item ∷ d) (suc n) h =
      All-append (IsComb (item ∷ d) (suc n)) (map (◌∷◌ item) (combinations d n))
        (combinations d (suc n))
        (All-map (IsComb (item ∷ d) (suc n)) (◌∷◌ item) (combinations d n) (
          All-mono (IsComb d n) _ (combinations d n)
            (λ comb c.
              ((h.0.0, c.0), (absent comb c.3, c.1), ap suc c.2, λ k m. ground (arith, c.3 k)))
            (combinations-IsComb d n (h.0.1, h.1.1))))
        (All-mono (IsComb d (suc n)) (IsComb (item ∷ d) (suc n)) (combinations d (suc n))
          (λ comb c. (c.0, c.1, c.2, λ k m. ground (arith, c.3 k m)))
          (combinations-IsComb d (suc n) (h.0.1, h.1.1)))
    where
      absent :
          (comb : ByGroup)
          → ((k : ℕ) → contains k (keys comb) ≡ true → contains k (keys d) ≡ true)
          → contains item.0 (keys comb) ≡ false
      absent comb sub = ground (arith, sub item.0, h.1.0)

  pub common-members :
      (comb : ByGroup) (s : ℕ)
      → contains s (common comb) ≡ true
      → All (λ item. contains s item.1 ≡ true) comb
  unfolding common
  common-members [] s m = tt
  common-members (item ∷ []) s m = (m, tt)
  common-members (item ∷ other ∷ rest) s m =
      let both = contains-filter (λ a. contains a (common (other ∷ rest))) s item.1 in
      (ground (arith, both), common-members (other ∷ rest) s (ground (arith, both)))

  pub common-IsDistinct : (comb : ByGroup) → All (IsSound Q) comb → IsDistinct (common comb)
  unfolding common
  common-IsDistinct [] h = tt
  common-IsDistinct (item ∷ []) h = h.0.0
  common-IsDistinct (item ∷ other ∷ rest) h = filter-IsDistinct _ item.1 h.0.0

  -- A candidate is a choice of `n` groups, with the slots that they have in common.
  abbrev pub IsMatch : ByGroup → ℕ → ℕ → Candidate → Type 0
  IsMatch d n per cand =
      (comb : ByGroup) × IsComb d n comb
      × (keys comb ≡ cand.cand_groups)
      × (common comb ≡ cand.cand_slots)
      × (per ≤ length cand.cand_slots)

  abbrev pub Holds : (Candidate → Type 0) → Option Candidate → Type 0
  Holds R none = Unit {0}
  Holds R (some cand) = R cand

  best_match-IsMatch :
      (d : ByGroup) (n per upper : ℕ) (best : Option Candidate) (combs : List ByGroup)
      → Holds (IsMatch d n per) best
      → All (IsComb d n) combs
      → Holds (IsMatch d n per) (best_match per upper best combs)
  unfolding best_match
  best_match-IsMatch d n per upper best [] b h = b
  best_match-IsMatch d n per upper best (comb ∷ combs) b h =
      elim (Bool-cases (length (common comb) == per)) [
        | inl exact ↦ rw exact (comb, h.0, refl, refl, ground arith)
        | inr other ↦
            rw other
              (elim (Bool-cases
                (ltb per (length (common comb)) && ltb (length (common comb)) upper)) [
                  | inl better ↦ rw better (
                      best_match-IsMatch d n per (length (common comb)) _ combs
                        (comb, h.0, refl, refl, ground arith) h.1)
                  | inr worse ↦ rw worse (best_match-IsMatch d n per upper best combs b h.1)
                ])
      ]

  keys-get_slots_of_len :
      (d : ByGroup) (n k : ℕ)
      → contains k (keys (get_slots_of_len d n)) ≡ true
      → contains k (keys d) ≡ true
  unfolding get_slots_of_len
  keys-get_slots_of_len [] n k m = m
  keys-get_slots_of_len (item ∷ d) n k m = ground (arith, keys-get_slots_of_len d n k)

  get_slots_of_len-IsGrouped :
      (d : ByGroup) (n : ℕ) → IsGrouped Q d → IsGrouped Q (get_slots_of_len d n)
  unfolding get_slots_of_len
  get_slots_of_len-IsGrouped d n h = (All-filter (IsSound Q) _ d h.0, distinct d h.1)
    where
      distinct :
          (e : ByGroup)
          → IsDistinct (keys e)
          → IsDistinct (keys (filter (λ item. leb n (length item.1)) e))
      distinct [] k = tt
      distinct (item ∷ e) k = ground (arith, distinct e k.1, keys-get_slots_of_len e n item.0)

  pub get_matching_slots-IsMatch :
      (d : ByGroup) (n per : ℕ)
      → IsGrouped Q d
      → Holds (λ cand. IsMatch (get_slots_of_len d per) n per cand) (get_matching_slots d n per)
  unfolding get_matching_slots
  get_matching_slots-IsMatch d n per h =
      elim (Bool-cases (ltb (length (get_slots_of_len d per)) n)) [
        | inl few ↦ rw few tt
        | inr enough ↦ rw enough (
            best_match-IsMatch (get_slots_of_len d per) n per _ none _ tt
              (combinations-IsComb (get_slots_of_len d per) n (get_slots_of_len-IsGrouped d per h)))
      ]
