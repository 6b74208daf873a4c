-- ===== src/Resources/Assignment/Counts.antt =====
-- The counters of free resource sets agree with the array.
use libensemble.Base.{
  ℕ, zero, suc, ◌+◌, ◌≡◌, refl, sym, ap, ◌∙◌, Bool, true, false, ◌&&◌, ◌||◌, not, List, [], ◌∷◌,
  map, Option, none, some, ok, arith, if◌then◌else◌, length, get_elem?, count, modify_at, contains,
  IsDistinct, pos, ◌-ℤ◌, pos-sub, pos-add, All, length-modify_at, length-map, Option-cases, inl,
  inr, get_elem?-modify_at,
}
use libensemble.Resources.Assignment.{
  ManRSet, ResourceManager, is_free, is_free_gpu, is_free_nongpu, snapshot, mark, gpus_at,
  take_rset, assign_loop, assign_rsets, holds, release, unmark, free_rsets, free_all, free_worker,
}

pub record IsCounted (m : ResourceManager) : Type 0 where
  pub free : m.rsets_free ≡ pos (count is_free m.rsets)
  pub gpu : m.gpu_rsets_free ≡ pos (count is_free_gpu m.rsets)
  pub nongpu : m.nongpu_rsets_free ≡ pos (count is_free_nongpu m.rsets)
  pub total : m.total_num_rsets ≡ length m.rsets
  pub total_gpu : m.total_num_gpu_rsets ≡ count (λ r. r.gpus) m.rsets
  pub total_nongpu : m.total_num_nongpu_rsets ≡ count (λ r. not r.gpus) m.rsets

-- A resource set of index `i` is there and free.
abbrev pub IsFreeAt : List ManRSet → ℕ → Type 0
IsFreeAt rs i = (r : ManRSet) × (get_elem? rs i ≡ some r) × (r.assigned ≡ none)

module _ (worker : ℕ) (r : ManRSet) where
  -- Marking an entry takes it off the count of the free entries.
  count-mark :
      (p : ManRSet → Bool) (gone : (x : ManRSet) → p (mark worker x) ≡ false) (i : ℕ)
      (rs : List ManRSet)
      → get_elem? rs i ≡ some r
      → count p (modify_at i (mark worker) rs) + (if p r then 1 else 0) ≡ count p rs
  count-mark p gone i [] e = ground arith
  count-mark p gone zero (x ∷ rs) e = ground (arith, gone x)
  count-mark p gone (suc i) (x ∷ rs) e = ground (arith, count-mark p gone i rs e)

-- What marking leaves alone is counted as before.
count-modify_at {ℓ} :
    {A : Type ℓ} (q : A → Bool) (f : A → A) (kept : (x : A) → q (f x) ≡ q x) (i : ℕ) (xs : List A)
    → count q (modify_at i f xs) ≡ count q xs
count-modify_at q f kept i [] = refl
count-modify_at q f kept zero (x ∷ xs) = rw (kept x)
count-modify_at q f kept (suc i) (x ∷ xs) = ground (arith, count-modify_at q f kept i xs)

drop_one : (a b : ℕ) → b + 1 ≡ a → pos a -ℤ pos 1 ≡ pos b
drop_one a b h = pos-sub a 1 (omega arith) ∙ ap pos (omega arith)

gpus_at-some :
    (rs : List ManRSet) (i : ℕ) (r : ManRSet) → get_elem? rs i ≡ some r → gpus_at rs i ≡ r.gpus
gpus_at-some rs i r e = ground arith

take_rset-IsCounted :
    (m : ResourceManager) (i worker : ℕ)
    → IsFreeAt m.rsets i
    → IsCounted m
    → IsCounted (take_rset m i worker)
unfolding take_rset
take_rset-IsCounted m i worker (r, e, f) c =
    let rs' = modify_at i (mark worker) m.rsets in
    record {
      free = ground (
        arith,
        drop_one (count is_free m.rsets) (count is_free rs'),
        count-mark worker r is_free (λ x. refl) i m.rsets e,
      );
      gpu = ground (
        arith,
        gpus_at-some m.rsets i r e,
        drop_one (count is_free_gpu m.rsets) (count is_free_gpu rs'),
        count-mark worker r is_free_gpu (λ x. refl) i m.rsets e,
      );
      nongpu = ground (
        arith,
        gpus_at-some m.rsets i r e,
        drop_one (count is_free_nongpu m.rsets) (count is_free_nongpu rs'),
        count-mark worker r is_free_nongpu (λ x. refl) i m.rsets e,
      );
      total = omega (arith, c.total, length-modify_at i (mark worker) m.rsets);
      total_gpu =
          omega
            (arith, c.total_gpu, count-modify_at (λ r. r.gpus) (mark worker) (λ x. refl) i m.rsets);
      total_nongpu = omega (
        arith,
        c.total_nongpu,
        count-modify_at (λ r. not r.gpus) (mark worker) (λ x. refl) i m.rsets,
      );
    }

-- A snapshot of the team is right about a state if its free entries are free there.
abbrev Fits : List ManRSet → List (ℕ × Option ℕ) → Type 0
Fits rs = All (λ entry. entry.1 ≡ none → IsFreeAt rs entry.0)

abbrev indices : List (ℕ × Option ℕ) → List ℕ
indices = map (λ entry. entry.0)

snapshot-Fits :
    (rs : List ManRSet) (team : List ℕ) {entries : List (ℕ × Option ℕ)}
    → snapshot rs team ≡ some entries
    → Fits rs entries × (indices entries ≡ team)
unfolding snapshot
snapshot-Fits rs [] {entries} e = let made : [] ≡ entries = cc in rw (← made) (tt, refl)
snapshot-Fits rs (i ∷ team) {entries} e = elim (Option-cases (get_elem? rs i)) [
  | inl absent ↦ ground arith
  | inr (r, at) ↦ elim (Option-cases (snapshot rs team)) [
    | inl absent ↦ ground arith
    | inr (rest, rest_eq) ↦
        let made : (i, r.assigned) ∷ rest ≡ entries = ground arith in
        let (fit, same) = snapshot-Fits rs team rest_eq in
        rw (← made) (((λ free. (r, at, free)), fit), ap (◌∷◌ i) same)
  ]
]

Fits-mark :
    (rs : List ManRSet) (j worker : ℕ) (entries : List (ℕ × Option ℕ))
    → contains j (indices entries) ≡ false
    → Fits rs entries
    → Fits (modify_at j (mark worker) rs) entries
Fits-mark rs j worker [] out fit = tt
Fits-mark rs j worker ((i, holder) ∷ rest) out fit = (
  (λ free.
      let (r, at, unheld) = fit.0 free in
      (r, ground (arith, get_elem?-modify_at rs i j (mark worker)), unheld)),
  Fits-mark rs j worker rest (ground arith) fit.1,
)

take_rset-rsets :
    (m : ResourceManager) (i worker : ℕ)
    → (take_rset m i worker).rsets ≡ modify_at i (mark worker) m.rsets
unfolding take_rset
take_rset-rsets m i worker = refl

assign_loop-IsCounted :
    (worker : ℕ) (entries : List (ℕ × Option ℕ)) (m : ResourceManager)
    → IsDistinct (indices entries)
    → Fits m.rsets entries
    → IsCounted m
    → IsCounted (assign_loop worker entries m)
unfolding assign_loop
assign_loop-IsCounted worker [] m d fit c = c
assign_loop-IsCounted worker ((i, none) ∷ rest) m d fit c =
    assign_loop-IsCounted worker rest (take_rset m i worker) d.1
      (rw (take_rset-rsets m i worker) (Fits-mark m.rsets i worker rest d.0 fit.1))
      (take_rset-IsCounted m i worker (fit.0 refl) c)
assign_loop-IsCounted worker ((i, some holder) ∷ rest) m d fit c =
    assign_loop-IsCounted worker rest m d.1 fit.1 c

module _ {ℓ} {A : Type ℓ} (f : A → A) where
  count-map :
      (p q : A → Bool) → ((x : A) → q (f x) ≡ p x) → (xs : List A) → count p xs ≡ count q (map f xs)
  count-map p q h [] = refl
  count-map p q h (x ∷ xs) = ground (arith, h x, count-map p q h xs)

  length-count-map :
      (q : A → Bool) → ((x : A) → q (f x) ≡ true) → (xs : List A) → length xs ≡ count q (map f xs)
  length-count-map q h [] = refl
  length-count-map q h (x ∷ xs) = ground (arith, h x, length-count-map q h xs)

  -- A test that holds of `f x` where one of two exclusive tests holds of `x`.
  count-map_add :
      (p q r : A → Bool)
      → ((x : A) → (p (f x) ≡ (q x || r x)) × ((q x && r x) ≡ false))
      → (xs : List A) → count q xs + count r xs ≡ count p (map f xs)
  count-map_add p q r h [] = refl
  count-map_add p q r h (x ∷ xs) = ground (arith, h x, count-map_add p q r h xs)

-- If no resource set is named twice, assigning a team keeps the three counters of free resource sets
-- equal to the numbers of free entries, of all, of GPU and of non-GPU resource sets.
pub assign_rsets-IsCounted :
    (m : ResourceManager) (team : List ℕ) (worker : ℕ) {m' : ResourceManager}
    → IsDistinct team
    → IsCounted m
    → assign_rsets m team worker ≡ ok m'
    → IsCounted m'
unfolding assign_rsets
assign_rsets-IsCounted m team worker {m'} d c e = elim (Option-cases (snapshot m.rsets team)) [
  | inl absent ↦ ground arith
  | inr (entries, at) ↦
      let made : assign_loop worker entries m ≡ m' = ground arith in
      let (fit, same) = snapshot-Fits m.rsets team at in
      rw (← made) (assign_loop-IsCounted worker entries m (rw same d) fit c)
]

free_all-IsCounted : (m : ResourceManager) → IsCounted m → IsCounted (free_all m)
unfolding free_all
free_all-IsCounted m c = record {
  free = ap pos (c.total ∙ length-count-map unmark is_free (λ x. refl) m.rsets);
  gpu = ap pos (c.total_gpu ∙ count-map unmark (λ r. r.gpus) is_free_gpu (λ x. refl) m.rsets);
  nongpu =
      ap pos
        (c.total_nongpu ∙ count-map unmark (λ r. not r.gpus) is_free_nongpu (λ x. refl) m.rsets);
  total = c.total ∙ sym (length-map unmark m.rsets);
  total_gpu = c.total_gpu ∙ count-map unmark (λ r. r.gpus) (λ r. r.gpus) (λ x. refl) m.rsets;
  total_nongpu =
      c.total_nongpu ∙ count-map unmark (λ r. not r.gpus) (λ r. not r.gpus) (λ x. refl) m.rsets;
}

pub free_worker-IsCounted :
    (m : ResourceManager) (worker : ℕ) → IsCounted m → IsCounted (free_worker m worker)
unfolding free_worker
free_worker-IsCounted m worker c = record {
  free = rw c.free (
      pos-add _ _
      ∙ ap pos (
          count-map_add (release worker) is_free is_free (holds worker) (λ x. ground arith)
            m.rsets));
  gpu = rw c.gpu (
      pos-add _ _
      ∙ ap pos (
          count-map_add (release worker) is_free_gpu is_free_gpu (λ r. holds worker r && r.gpus)
            (λ x. ground arith) m.rsets));
  nongpu = rw c.nongpu (
      pos-add _ _
      ∙ ap pos (
          count-map_add (release worker) is_free_nongpu is_free_nongpu
            (λ r. holds worker r && not r.gpus) (λ x. ground arith) m.rsets));
  total = c.total ∙ sym (length-map (release worker) m.rsets);
  total_gpu =
      c.total_gpu
      ∙ count-map (release worker) (λ r. r.gpus) (λ r. r.gpus) (λ x. ground arith) m.rsets;
  total_nongpu =
      c.total_nongpu
      ∙ count-map (release worker) (λ r. not r.gpus) (λ r. not r.gpus) (λ x. ground arith) m.rsets;
}

-- Giving resource sets back, of one worker or of all, keeps the counters equal to the numbers of
-- free entries.
pub free_rsets-IsCounted :
    (m : ResourceManager) (worker : Option ℕ) → IsCounted m → IsCounted (free_rsets m worker)
unfolding free_rsets
free_rsets-IsCounted m none c = free_all-IsCounted m c
free_rsets-IsCounted m (some worker) c = free_worker-IsCounted m worker c
