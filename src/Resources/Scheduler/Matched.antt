-- ===== src/Resources/Scheduler/Matched.antt =====
-- The search for matching slots finds a team of the dictionary's resource sets.
use libensemble.Base.{
  ℕ, ◌*◌, ◌≡◌, refl, sym, ap, ◌∙◌, true, List, [], ◌∷◌, map, some, ok, arith, ◌==◌, length,
  get_elem?, take, contains, IsDistinct, All, Bool-cases, inl, inr, get_elem?-map, length-map,
}
use libensemble.Resources.RSets.{RSet}
use libensemble.Resources.RSets.Groups.{AreKeys}
use libensemble.Resources.Assignment.{ManRSet}
use libensemble.Resources.Scheduler.Avail.{ByGroup, slot_set, get_avail_slots_by_group, sorted}
use libensemble.Resources.Scheduler.Matching.{SetOrder, Candidate, keys, assign_team_from_slots}
use libensemble.Resources.Scheduler.Groups.{IsFreeIn, IsSound, IsGrouped}
use libensemble.Resources.Scheduler.Combs.{IsMatch, common-members, common-IsDistinct}
use libensemble.Resources.Scheduler.Teams.{
  IsTeam, HasSlot, slot_set_sound, slot_set-IsDistinct, groups_team-IsTeam,
}
use libensemble.Resources.Scheduler.Order.{
  contains-sorted, sorted-IsDistinct, length-sorted, contains-take, take-IsDistinct, length-take_le,
}

-- A slot that all groups of a combination have is there in each of them.
comb_has :
    (Q : ℕ → ℕ → Type 0) (comb : ByGroup) (g s : ℕ)
    → All (IsSound Q) comb
    → All (λ item. contains s item.1 ≡ true) comb
    → contains g (keys comb) ≡ true
    → Q g s
comb_has Q [] g s h k m = absurd cc
comb_has Q (item ∷ comb) g s h k m = elim (Bool-cases (g == item.0)) [
  | inl here ↦ let e : g ≡ item.0 = ground arith in rw e (h.0.1 s k.0)
  | inr there ↦ comb_has Q comb g s h.1 k.1 (ground arith)
]

module _ (rsets : List ManRSet) (P : ℕ → ℕ → Type 0)
    (free_in : (g i : ℕ) → P g i → IsFreeIn rsets g i)
    (keyed : AreKeys (map (λ r. r.rset) rsets)) where
  abbrev table : List RSet
  table = map (λ r. r.rset) rsets

  pub apart : (g g' i : ℕ) → P g i → P g' i → g ≡ g'
  apart g g' i h h' =
      let (r, at, group, _) = free_in g i h in
      let (r', at', group', _) = free_in g' i h' in ground arith

  slots_IsSound :
      (g : ℕ) (ids : List ℕ)
      → IsSound P (g, ids)
      → IsSound (HasSlot table P apart) (g, slot_set rsets ids)
  slots_IsSound g ids h = (
    slot_set-IsDistinct rsets ids,
    λ s m.
        let (j, listed, slot) = slot_set_sound rsets ids s m in
        let holds = h.1 j listed in
        let (r, at, group, _) = free_in g j holds in
        let row : get_elem? table j ≡ some r.rset =
          ground (arith, get_elem?-map (λ r. r.rset) rsets j) in
        (j, ground (arith, keyed j r.rset row), holds),
  )

  slots_All :
      (d : ByGroup)
      → All (IsSound P) d
      → All (IsSound (HasSlot table P apart)) (get_avail_slots_by_group rsets d)
  unfolding get_avail_slots_by_group
  slots_All [] h = tt
  slots_All (item ∷ d) h = (slots_IsSound item.0 item.1 h.0, slots_All d h.1)

  slots_keys : (d : ByGroup) → keys (get_avail_slots_by_group rsets d) ≡ keys d
  unfolding get_avail_slots_by_group
  slots_keys [] = refl
  slots_keys (item ∷ d) = ap (◌∷◌ item.0) (slots_keys d)

  pub slots_IsGrouped :
      (d : ByGroup)
      → IsGrouped P d
      → IsGrouped (HasSlot table P apart) (get_avail_slots_by_group rsets d)
  slots_IsGrouped d h = (slots_All d h.0, rw (slots_keys d) h.1)

  pub assign_team_from_slots-IsTeam :
      (sets : SetOrder) (d : ByGroup) (n per : ℕ) (cand : Candidate)
      → IsMatch (HasSlot table P apart) d n per cand
      → (team : List ℕ) × (assign_team_from_slots sets table cand per ≡ ok team)
        × (length team ≡ n * per)
        × IsTeam P team
  unfolding assign_team_from_slots
  assign_team_from_slots-IsTeam sets d n per cand (comb, chosen, groups, shared, enough) =
      let used = take per (sets.order cand.cand_slots) in
      let distinct : IsDistinct cand.cand_slots =
        rw (← shared) (common-IsDistinct (HasSlot table P apart) comb chosen.0) in
      let many : length cand.cand_groups ≡ n =
        ap length (sym groups) ∙ length-map (λ item. item.0) comb ∙ chosen.2 in
      let few : length used ≡ per =
        length-take_le per (sets.order cand.cand_slots)
          (omega (arith, sets.same_length cand.cand_slots)) in
      let (team, found, size, once, members) =
        groups_team-IsTeam table P apart cand.cand_groups used
          (λ g s m m'.
            comb_has (HasSlot table P apart) comb g s chosen.0
              (common-members (HasSlot table P apart) comb s (
                rw shared (
                  sym (sets.same_members cand.cand_slots s)
                  ∙ contains-take per s (sets.order cand.cand_slots) m')))
              (rw groups m))
          (rw (← groups) chosen.1)
          (take-IsDistinct per _ (sets.still_distinct cand.cand_slots distinct)) in
      (
        sorted team,
        rw found,
        rw (length-sorted team, size, many, few) refl,
        (
          sorted-IsDistinct team once,
          λ i m. let (g, _, holds) = members i (sym (contains-sorted i team) ∙ m) in (g, holds),
        ),
      )
