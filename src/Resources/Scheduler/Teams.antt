-- ===== src/Resources/Scheduler/Teams.antt =====
-- A team with matching slots consists of resource sets of the dictionary, none of them twice.
use libensemble.Base.{
  ℕ, suc, ◌*◌, ◌≡◌, refl, ap, true, ◌&&◌, List, [], ◌∷◌, ◌++◌, some, ok, arith, ◌==◌, length,
  get_elem?, contains, IsDistinct, contains-append, append-IsDistinct, mem_head, mem_tail,
  absent_of_not, Bool-cases, Option-cases, inl, inr, length-append,
}
use libensemble.Resources.RSets.{RSet}
use libensemble.Resources.RSets.Groups.{first_index}
use libensemble.Resources.Assignment.{ManRSet}
use libensemble.Resources.Scheduler.Avail.{slot_at, slot_set}
use libensemble.Resources.Scheduler.Matching.{slots_team, groups_team}

-- The team names no resource set twice, and `P g i` holds of each of its members for some group.

abbrev pub IsTeam : (ℕ → ℕ → Type 0) → List ℕ → Type 0
IsTeam P team = IsDistinct team × ((i : ℕ) → contains i team ≡ true → (g : ℕ) × P g i)

pub first_index_sound :
    (g s : ℕ) (rs : List RSet) (i : ℕ)
    → first_index g s rs ≡ some i
    → (r : RSet) × (get_elem? rs i ≡ some r) × (r.group ≡ g) × (r.slot ≡ s)
unfolding first_index
first_index_sound g s [] i e = absurd cc
first_index_sound g s (r ∷ rs) i e = elim (Bool-cases (r.group == g && r.slot == s)) [
  | inl here ↦ let at : 0 ≡ i = ground arith in rw (← at) (r, refl, ground arith, ground arith)
  | inr later ↦ elim (Option-cases (first_index g s rs)) [
    | inl absent ↦ absurd (ground arith)
    | inr (j, found) ↦
        let at : suc j ≡ i = ground arith in rw (← at) (first_index_sound g s rs j found)
  ]
]

pub slot_set_sound :
    (rsets : List ManRSet) (ids : List ℕ) (s : ℕ)
    → contains s (slot_set rsets ids) ≡ true
    → (j : ℕ) × (contains j ids ≡ true) × (slot_at rsets j ≡ s)
unfolding slot_set
slot_set_sound rsets [] s m = absurd cc
slot_set_sound rsets (i ∷ ids) s m = elim (Bool-cases (slot_at rsets i == s)) [
  | inl here ↦ (i, ground arith, ground arith)
  | inr later ↦
      let (j, listed, slot) = slot_set_sound rsets ids s (ground arith) in (j, ground arith, slot)
]

pub slot_set-IsDistinct : (rsets : List ManRSet) (ids : List ℕ) → IsDistinct (slot_set rsets ids)
unfolding slot_set
slot_set-IsDistinct rsets [] = tt
slot_set-IsDistinct rsets (i ∷ ids) = ground (arith, slot_set-IsDistinct rsets ids)

same_slot :
    (rs : List RSet) (g s s' i : ℕ)
    → first_index g s rs ≡ some i
    → first_index g s' rs ≡ some i
    → s ≡ s'
same_slot rs g s s' i e e' =
    let (r, at, _, slot) = first_index_sound g s rs i e in
    let (r', at', _, slot') = first_index_sound g s' rs i e' in ground arith

-- What the inner loop of `assign_team_from_slots` makes of some slots of a group.
abbrev FillsSlots : List RSet → ℕ → List ℕ → List ℕ → Type 0
FillsSlots rs g slots team =
    (length team ≡ length slots)
    × IsDistinct team
    × ((i : ℕ)
        → contains i team ≡ true
        → (s : ℕ) × (contains s slots ≡ true) × (first_index g s rs ≡ some i))

module _ (rs : List RSet) (P : ℕ → ℕ → Type 0)
    (apart : (g g' i : ℕ) → P g i → P g' i → g ≡ g') where
  -- Slot `s` of group `g` stands for a resource set that `P` holds of.
  abbrev pub HasSlot : ℕ → ℕ → Type 0
  HasSlot g s = (j : ℕ) × (first_index g s rs ≡ some j) × P g j

  slots_team-FillsSlots :
      (g : ℕ) (slots : List ℕ)
      → ((s : ℕ) → contains s slots ≡ true → HasSlot g s)
      → IsDistinct slots
      → (team : List ℕ) × (slots_team rs g slots ≡ ok team) × FillsSlots rs g slots team
  unfolding slots_team
  slots_team-FillsSlots g [] has d = ([], refl, (refl, tt, λ i m. absurd cc))
  slots_team-FillsSlots g (s ∷ slots) has d =
      let (j, at, holds) = has s (mem_head s slots) in
      let (team, found, fills) =
        slots_team-FillsSlots g slots (λ s' m. has s' (mem_tail s' s slots m)) d.1 in
      (
        j ∷ team,
        rw (at, found),
        (
          ap suc fills.0,
          (
            absent_of_not j team (λ m.
                let (s', listed, at') = fills.2 j m in
                ground (arith, same_slot rs g s s' j at at')),
            fills.1,
          ),
          λ i m. elim (Bool-cases (i == j)) [
            | inl same ↦ let e : i ≡ j = ground arith in (s, mem_head s slots, rw e at)
            | inr other ↦
                let (s', listed, at') = fills.2 i (ground arith) in
                (s', mem_tail s' s slots listed, at')
          ],
        ),
      )

  -- A member of the part of one group.
  part_member :
      (g : ℕ) (slots team : List ℕ) (i : ℕ)
      → ((s : ℕ) → contains s slots ≡ true → HasSlot g s)
      → FillsSlots rs g slots team
      → contains i team ≡ true
      → P g i
  part_member g slots team i has fills m =
      let (s, listed, at) = fills.2 i m in
      let (j, at', holds) = has s listed in let same : i ≡ j = ground arith in rw same holds

  pub groups_team-IsTeam :
      (groups slots : List ℕ)
      → ((g s : ℕ) → contains g groups ≡ true → contains s slots ≡ true → HasSlot g s)
      → IsDistinct groups
      → IsDistinct slots
      → (team : List ℕ) × (groups_team rs groups slots ≡ ok team)
        × (length team ≡ length groups * length slots)
        × IsDistinct team
        × ((i : ℕ) → contains i team ≡ true → (g : ℕ) × (contains g groups ≡ true) × P g i)
  unfolding groups_team
  groups_team-IsTeam [] slots has d e = ([], refl, omega arith, tt, λ i m. absurd cc)
  groups_team-IsTeam (g ∷ groups) slots has d e =
      let here = λ (s : ℕ) (m : contains s slots ≡ true). has g s (mem_head g groups) m in
      let (team, found, fills) = slots_team-FillsSlots g slots here e in
      let (rest, found', size, distinct, members) =
        groups_team-IsTeam groups slots (λ g' s m m'. has g' s (mem_tail g' g groups m) m') d.1 e in
      (
        team ++ rest,
        rw (found, found'),
        omega (arith, length-append team rest, fills.0, size),
        append-IsDistinct team rest fills.1 distinct (λ i m. absent_of_not i rest (λ m'.
            let (g', listed, holds) = members i m' in
            ground (arith, apart g g' i (part_member g slots team i here fills m) holds))),
        λ i m. elim (Bool-cases (contains i team)) [
          | inl mine ↦ (g, mem_head g groups, part_member g slots team i here fills mine)
          | inr other ↦
              let (g', listed, holds) = members i (ground (arith, contains-append i team rest)) in
              (g', mem_tail g' g groups listed, holds)
        ],
      )
