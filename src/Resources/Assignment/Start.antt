-- ===== src/Resources/Assignment/Start.antt =====
-- What holds of a resource manager as it is built.
use libensemble.Base.{
  ℕ, ◌≡◌, refl, sym, ap, ◌∙◌, Bool, not, List, [], ◌∷◌, map, ok, arith, length, count,
  Outcome-cases, inl, inr, length-map,
}
use libensemble.Resources.RSets.{
  RSet, RSetResources, GlobalResources, get_workers2assign2, get_split_list, get_rsets_on_a_node,
  get_group_list, procs_of, init_rsets, or_else, total_of,
}
use libensemble.Resources.RSets.Split.{length-get_split_list}
use libensemble.Resources.RSets.Groups.{AreKeys, get_group_list-AreKeys, length-get_group_list}
use libensemble.Resources.Assignment.{
  ManRSet, ResourceManager, is_free, is_free_gpu, is_free_nongpu, unassigned, init_manager,
  last_group,
}
use libensemble.Resources.Assignment.Counts.{IsCounted}

record IsBuilt (f : RSetResources) : Type 0 where
  keyed : AreKeys f.all_rsets
  total : f.total_num_rsets ≡ length f.all_rsets
  gpu : f.total_num_gpu_rsets ≡ count (λ r. r.gpus) f.all_rsets
  nongpu : f.total_num_nongpu_rsets ≡ count (λ r. not r.gpus) f.all_rsets

init_rsets-IsBuilt :
    (num_workers : ℕ) (resources : GlobalResources) {f : RSetResources}
    → init_rsets num_workers resources ≡ ok f
    → IsBuilt f
unfolding init_rsets
init_rsets-IsBuilt num_workers resources {f} e =
    let wanted = or_else resources.num_resource_sets (get_workers2assign2 num_workers resources) in
    elim (Outcome-cases (total_of wanted resources)) [
      | inr (err, raised) ↦ absurd (ground arith)
      | inl (total, at) ↦ elim (Outcome-cases (get_split_list total resources)) [
        | inr (err, raised) ↦ absurd (ground arith)
        | inl (partition, at') ↦ elim (Outcome-cases (get_rsets_on_a_node total resources)) [
          | inr (err, raised) ↦ absurd (ground arith)
          | inl (per_node, at'') ↦
              elim (Outcome-cases (get_group_list partition.0 resources.gpus_avail_per_node)) [
                | inr (err, raised) ↦ absurd (ground arith)
                | inl (rs, at''') ↦
                    elim (Outcome-cases
                      (procs_of resources.physical_cores_avail_per_node per_node)) [
                        | inr (err, raised) ↦ absurd (ground arith)
                        | inl (procs, there) ↦
                            let same : rs ≡ f.all_rsets = ground arith in
                            record {
                              keyed = rw (← same) (λ i r at.
                                  (get_group_list-AreKeys partition.0 resources.gpus_avail_per_node
                                    at''' i r at).0);
                              total = ground (
                                arith,
                                length-get_group_list partition.0 resources.gpus_avail_per_node
                                    at''',
                                length-get_split_list total resources at',
                              );
                              gpu = ground arith;
                              nongpu = ground arith;
                            }
                      ]
              ]
        ]
      ]
    ]

-- The IDs of the resource sets, without the workers that hold them.
abbrev pub table : List ManRSet → List RSet
table rsets = map (λ r. r.rset) rsets

table-unassigned : (rs : List RSet) → table (map unassigned rs) ≡ rs
table-unassigned [] = refl
table-unassigned (r ∷ rs) = ap (◌∷◌ r) (table-unassigned rs)

count-unassigned :
    (p : ManRSet → Bool) (q : RSet → Bool)
    → ((r : RSet) → p (unassigned r) ≡ q r)
    → (rs : List RSet) → count q rs ≡ count p (map unassigned rs)
count-unassigned p q h [] = refl
count-unassigned p q h (r ∷ rs) = ground (arith, h r, count-unassigned p q h rs)

count_all : (rs : List RSet) → length rs ≡ count is_free (map unassigned rs)
count_all [] = refl
count_all (r ∷ rs) = omega (arith, count_all rs)

-- A manager that is built with no error has its counters equal to the numbers of free resource
-- sets, and each of its resource sets is found again by group and slot.
pub init_manager-IsCounted :
    (num_workers : ℕ) (resources : GlobalResources) {m : ResourceManager}
    → init_manager num_workers resources ≡ ok m
    → IsCounted m × AreKeys (table m.rsets)
unfolding init_manager
init_manager-IsCounted num_workers resources {m} e =
    elim (Outcome-cases (init_rsets num_workers resources)) [
      | inr (err, raised) ↦ absurd (ground arith)
      | inl (f, built) ↦ elim (Outcome-cases (last_group f.all_rsets)) [
        | inr (err, raised) ↦ absurd (ground arith)
        | inl (last, found) ↦
            let is_built = init_rsets-IsBuilt num_workers resources built in
            let rs = map unassigned f.all_rsets in
            let fixed : f ≡ m.fixed = ground arith in
            let made : rs ≡ m.rsets = ground arith in
            (
              record {
                free = ground (arith, count_all f.all_rsets, is_built.total);
                gpu = ground (
                  arith,
                  is_built.gpu,
                  count-unassigned is_free_gpu (λ r. r.gpus) (λ r. refl) f.all_rsets,
                );
                nongpu = ground (
                  arith,
                  is_built.nongpu,
                  count-unassigned is_free_nongpu (λ r. not r.gpus) (λ r. refl) f.all_rsets,
                );
                total =
                    ap (λ r. r.total_num_rsets) (sym fixed)
                    ∙ is_built.total
                    ∙ sym (length-map unassigned f.all_rsets)
                    ∙ ap length made;
                total_gpu =
                    ap (λ r. r.total_num_gpu_rsets) (sym fixed)
                    ∙ is_built.gpu
                    ∙ count-unassigned (λ r. r.gpus) (λ r. r.gpus) (λ r. refl) f.all_rsets
                    ∙ ap (count (λ r. r.gpus)) made;
                total_nongpu =
                    ap (λ r. r.total_num_nongpu_rsets) (sym fixed)
                    ∙ is_built.nongpu
                    ∙ count-unassigned (λ r. not r.gpus) (λ r. not r.gpus) (λ r. refl) f.all_rsets
                    ∙ ap (count (λ r. not r.gpus)) made;
              },
              rw (← made, table-unassigned f.all_rsets) is_built.keyed,
            )
      ]
    ]
