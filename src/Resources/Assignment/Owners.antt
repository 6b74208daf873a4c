-- ===== src/Resources/Assignment/Owners.antt =====
-- Who holds which resource set after `assign_rsets` and `free_rsets`.
use libensemble.Base.{
  ℕ, ◌≡◌, refl, sym, ap, ◌∙◌, Bool, true, false, ◌&&◌, List, [], ◌∷◌, map, Option, none, some, ok,
  arith, if◌then◌else◌, get_elem?, map_option, contains, ◌==◌, IsDistinct, inl, inr, Option-cases,
  get_elem?-modify_at, lt-get_elem?, All, length, ◌<◌, get_elem?-map, get_elem?-ext, is_none, count,
  pos,
}
use libensemble.Resources.Assignment.{
  ManRSet, ResourceManager, is_free, is_free_gpu, is_free_nongpu, snapshot, mark, holds, release,
  take_rset, assign_loop, assign_rsets, free_rsets, free_worker,
}
use libensemble.Resources.Assignment.Counts.{
  IsCounted, assign_rsets-IsCounted, free_worker-IsCounted,
}

-- The loop marks resource set `i`.
abbrev marks : ℕ → List (ℕ × Option ℕ) → Bool
marks i [] = false
marks i ((j, holder) ∷ rest) = if i == j && is_none holder then true else marks i rest

assign_loop-get_elem? :
    (worker : ℕ) (entries : List (ℕ × Option ℕ)) (m : ResourceManager) (i : ℕ)
    → get_elem? (assign_loop worker entries m).rsets i ≡ (
        if marks i entries
        then map_option (mark worker) (get_elem? m.rsets i)
        else get_elem? m.rsets i)
unfolding assign_loop take_rset
assign_loop-get_elem? worker [] m i = refl
assign_loop-get_elem? worker ((j, none) ∷ rest) m i = ground (
  arith,
  assign_loop-get_elem? worker rest (take_rset m j worker) i,
  get_elem?-modify_at m.rsets i j (mark worker),
)
assign_loop-get_elem? worker ((j, some holder) ∷ rest) m i =
    ground (arith, assign_loop-get_elem? worker rest m i)

snapshot-marks :
    (rs : List ManRSet) (team : List ℕ) (i : ℕ) (r : ManRSet) {entries : List (ℕ × Option ℕ)}
    → snapshot rs team ≡ some entries
    → get_elem? rs i ≡ some r
    → marks i entries ≡ (contains i team && is_free r)
unfolding snapshot
snapshot-marks rs [] i r e at = ground arith
snapshot-marks rs (j ∷ team) i r {entries} e at = elim (Option-cases (get_elem? rs j)) [
  | inl absent ↦ ground arith
  | inr (s, at_j) ↦ elim (Option-cases (snapshot rs team)) [
    | inl absent ↦ ground arith
    | inr (rest, rest_eq) ↦ ground (arith, snapshot-marks rs team i r rest_eq at)
  ]
]

-- What becomes of resource set `r` of index `i` when `team` is assigned.
abbrev pub claimed : ℕ → List ℕ → ℕ → ManRSet → ManRSet
claimed worker team i r = if contains i team && is_free r then mark worker r else r

assign_rsets-claimed :
    (m : ResourceManager) (team : List ℕ) (worker : ℕ) {m' : ResourceManager}
    → assign_rsets m team worker ≡ ok m'
    → (i : ℕ) → get_elem? m'.rsets i ≡ map_option (claimed worker team i) (get_elem? m.rsets i)
unfolding assign_rsets
assign_rsets-claimed m team worker {m'} e i = elim (Option-cases (snapshot m.rsets team)) [
  | inl absent ↦ ground arith
  | inr (entries, at) ↦
      let made : assign_loop worker entries m ≡ m' = ground arith in
      rw (← made, assign_loop-get_elem? worker entries m i)
        (elim (Option-cases (get_elem? m.rsets i)) [
          | inl absent ↦ ground arith
          | inr (r, here) ↦ ground (arith, snapshot-marks m.rsets team i r at here)
        ])
]

snapshot-ok :
    (rs : List ManRSet) (team : List ℕ)
    → All (λ j. j < length rs) team
    → (entries : List (ℕ × Option ℕ)) × (snapshot rs team ≡ some entries)
unfolding snapshot
snapshot-ok rs [] inside = ([], refl)
snapshot-ok rs (j ∷ team) inside =
    let (r, there) = lt-get_elem? rs j inside.0 in
    let (entries, rest) = snapshot-ok rs team inside.1 in ((j, r.assigned) ∷ entries, ground arith)

-- For a team of resource sets that exist, whoever holds them, `assign_rsets` returns: a resource set of
-- the team that was free belongs to the worker, and every other one is as before. So one that another
-- worker holds keeps its holder, and no error says so.
pub assign_rsets-get_elem? :
    (m : ResourceManager) (team : List ℕ) (worker : ℕ)
    → All (λ j. j < length m.rsets) team
    → (m' : ResourceManager) × (assign_rsets m team worker ≡ ok m')
      × ((i : ℕ) → get_elem? m'.rsets i ≡ map_option (claimed worker team i) (get_elem? m.rsets i))
unfolding assign_rsets
assign_rsets-get_elem? m team worker inside =
    let (entries, at) = snapshot-ok m.rsets team inside in
    let made : assign_rsets m team worker ≡ ok (assign_loop worker entries m) = ground arith in
    (assign_loop worker entries m, made, assign_rsets-claimed m team worker made)

assign_loop_frame :
    (worker : ℕ) (entries : List (ℕ × Option ℕ)) (m : ResourceManager)
    → let m' = assign_loop worker entries m in
      (m'.fixed ≡ m.fixed)
      × (m'.index_list ≡ m.index_list)
      × (m'.num_groups ≡ m.num_groups)
      × (m'.even_groups ≡ m.even_groups)
unfolding assign_loop take_rset
assign_loop_frame worker [] m = (refl, refl, refl, refl)
assign_loop_frame worker ((i, none) ∷ rest) m = assign_loop_frame worker rest (take_rset m i worker)
assign_loop_frame worker ((i, some holder) ∷ rest) m = assign_loop_frame worker rest m

assign_rsets_frame :
    (m : ResourceManager) (team : List ℕ) (worker : ℕ) {m' : ResourceManager}
    → assign_rsets m team worker ≡ ok m'
    → (m'.fixed ≡ m.fixed)
      × (m'.index_list ≡ m.index_list)
      × (m'.num_groups ≡ m.num_groups)
      × (m'.even_groups ≡ m.even_groups)
unfolding assign_rsets
assign_rsets_frame m team worker {m'} e = elim (Option-cases (snapshot m.rsets team)) [
  | inl absent ↦ ground arith
  | inr (entries, at) ↦
      let made : assign_loop worker entries m ≡ m' = ground arith in
      rw (← made) (assign_loop_frame worker entries m)
]

-- The worker holds nothing.
abbrev pub HoldsNone : ℕ → List ManRSet → Type 0
HoldsNone worker rs = (i : ℕ) (r : ManRSet) → get_elem? rs i ≡ some r → holds worker r ≡ false

free_worker-rsets :
    (m : ResourceManager) (worker : ℕ) → (free_worker m worker).rsets ≡ map (release worker) m.rsets
unfolding free_worker
free_worker-rsets m worker = refl

rsets_restored :
    (m : ResourceManager) (team : List ℕ) (worker : ℕ) {m' : ResourceManager}
    → HoldsNone worker m.rsets
    → assign_rsets m team worker ≡ ok m'
    → (free_worker m' worker).rsets ≡ m.rsets
rsets_restored m team worker {m'} idle e = get_elem?-ext _ m.rsets λ i.
    rw
      (
        free_worker-rsets m' worker,
        get_elem?-map (release worker) m'.rsets i,
        assign_rsets-claimed m team worker e i,
      )
      (elim (Option-cases (get_elem? m.rsets i)) [
        | inl absent ↦ ground arith
        | inr (r, here) ↦ ground (arith, idle i r here)
      ])

-- What two managers with the same resource sets must also agree on, counters excepted.
counted_eq :
    (m n : ResourceManager)
    → IsCounted m
    → IsCounted n
    → m.rsets ≡ n.rsets
    → m.fixed ≡ n.fixed
    → m.index_list ≡ n.index_list
    → m.num_groups ≡ n.num_groups
    → m.even_groups ≡ n.even_groups
    → m ≡ n
counted_eq m n c d a b e f g = λ i. record {
  fixed = b i;
  index_list = e i;
  rsets = a i;
  num_groups = f i;
  rsets_free = (c.free ∙ ap (λ l. pos (count is_free l)) a ∙ sym d.free) i;
  gpu_rsets_free = (c.gpu ∙ ap (λ l. pos (count is_free_gpu l)) a ∙ sym d.gpu) i;
  nongpu_rsets_free = (c.nongpu ∙ ap (λ l. pos (count is_free_nongpu l)) a ∙ sym d.nongpu) i;
  even_groups = g i;
}

-- In a manager with right counters, a worker that held nothing is assigned a team with no resource set
-- named twice, and gives all it holds back: the manager is then as it was, counters included.
pub free_rsets-assign_rsets :
    (m : ResourceManager) (team : List ℕ) (worker : ℕ) {m' : ResourceManager}
    → IsCounted m
    → IsDistinct team
    → HoldsNone worker m.rsets
    → assign_rsets m team worker ≡ ok m'
    → free_rsets m' (some worker) ≡ m
unfolding free_rsets free_worker
free_rsets-assign_rsets m team worker {m'} c d idle e =
    let (fixed, index, groups, even) = assign_rsets_frame m team worker e in
    let after = assign_rsets-IsCounted m team worker d c e in
    counted_eq (free_worker m' worker) m (free_worker-IsCounted m' worker after) c
      (rsets_restored m team worker idle e) fixed index groups even
