-- ===== src/Resources/RSets/Split.antt =====
-- How nodes are divided among resource sets.
use native.Mathlib.Nat.{div-add-mod', mod-lt, div_self, mod_self}
use Prim.Native.String.{String}
use native.Mathlib.Decide.{dec_le}
use mathlib.Core.List.{flatten}
use libensemble.Base.{
  ℕ, zero, suc, ◌+◌, ◌-◌, ◌*◌, ◌/◌, ◌%◌, ◌≤◌, ◌<◌, min, ◌≡◌, refl, sym, ap, ◌∙◌, List, [], ◌∷◌,
  ◌++◌, map, ok, arith, Outcome-cases, leb, length, drop, replicate, length-take, length-drop,
  length-append, All, length-replicate, take-append-drop, ◌==◌, Bool-cases, inl, inr, if◌then◌else◌,
  ltb, true, Bool,
}
use libensemble.Resources.RSets.{
  slice, split_from, best_split, expand_from, expand_list, GlobalResources, get_split_list,
  even_assignment,
}

module _ {ℓ} {A : Type ℓ} where
  drop-drop : (m n k : ℕ) (xs : List A) → m + n ≡ k → drop n (drop m xs) ≡ drop k xs
  drop-drop zero n k xs e = let e' : n ≡ k = omega arith in ap (λ j. drop j xs) e'
  drop-drop (suc m) zero k [] e = let e' : suc m ≡ k = omega arith in ap (λ j. drop j []) e'
  drop-drop (suc m) (suc n) zero [] e = refl
  drop-drop (suc m) (suc n) (suc k) [] e = refl
  drop-drop (suc m) n zero (x ∷ xs) e = absurd (omega arith)
  drop-drop (suc m) n (suc k) (x ∷ xs) e = drop-drop m n k xs (omega arith)

  slice-append-drop :
      (xs : List A) (lo hi : ℕ) → lo ≤ hi → slice xs lo hi ++ drop hi xs ≡ drop lo xs
  slice-append-drop xs lo hi h =
      rw (← drop-drop lo (hi - lo) hi xs (omega arith)) (take-append-drop (hi - lo) (drop lo xs))

  drop_end : (n : ℕ) (xs : List A) → length xs ≤ n → drop n xs ≡ []
  drop_end zero [] h = refl
  drop_end zero (x ∷ xs) h = absurd (omega arith)
  drop_end (suc n) [] h = refl
  drop_end (suc n) (x ∷ xs) h = drop_end n xs (omega arith)

  -- The slices from position `i` on are the rest of the list from there.
  flatten-split_from :
      (a : List A) (k m i left : ℕ)
      → length a ≤ (i + left) * k + min (i + left) m
      → flatten (split_from a k m i left) ≡ drop (i * k + min i m) a
  unfolding split_from flatten
  flatten-split_from a k m i zero h = sym (drop_end _ a (omega arith))
  flatten-split_from a k m i (suc left) h =
      rw (flatten-split_from a k m (i + 1) left (omega (arith, h)))
        (slice-append-drop a _ _ (omega arith))

  whole_from : {a : List A} (i : ℕ) → i ≡ 0 → drop i a ≡ a
  whole_from zero e = refl
  whole_from (suc i) e = absurd (omega arith)

  length-slice : (xs : List A) (lo hi : ℕ) → hi ≤ length xs → length (slice xs lo hi) ≡ hi - lo
  length-slice xs lo hi h = omega (arith, length-take (hi - lo) (drop lo xs), length-drop lo xs)

  -- A part has `k` entries, or one more if there is a remainder `m`.
  abbrev pub IsEven : ℕ → ℕ → List A → Type 0
  IsEven k m part = (k ≤ length part) × (length part ≤ k + min 1 m)

  split_from-IsEven :
      (a : List A) (k m i left : ℕ)
      → (i + left) * k + min (i + left) m ≤ length a
      → All (IsEven k m) (split_from a k m i left)
  unfolding split_from
  split_from-IsEven a k m i zero h = tt
  split_from-IsEven a k m i (suc left) h = (
    omega (arith, length-slice a (i * k + min i m) ((i + 1) * k + min (i + 1) m) (omega arith)),
    split_from-IsEven a k m (i + 1) left (omega (arith, h)),
  )

  length-split_from : (a : List A) (k m i left : ℕ) → length (split_from a k m i left) ≡ left
  unfolding split_from
  length-split_from a k m i zero = refl
  length-split_from a k m i (suc left) = ap suc (length-split_from a k m (i + 1) left)

-- For a positive `n` the list is cut into `n` pieces that together are the list again, in order.
-- Each has `len(a) // n` entries, or one more where the division leaves a remainder.
pub best_split_lem {ℓ} :
    {A : Type ℓ} (a : List A) (n : ℕ)
    → 0 < n
    → (parts : List (List A)) × (best_split a n ≡ ok parts)
      × (length parts ≡ n)
      × (flatten parts ≡ a)
      × All (IsEven (length a / n) (length a % n)) parts
unfolding best_split
best_split_lem a n h =
    let k = length a / n in
    let m = length a % n in
    let whole : k * n + m ≡ length a = div-add-mod' (length a) n in
    let small : m < n = mod-lt (length a) h in
    (
      split_from a k m 0 n,
      ground arith,
      length-split_from a k m 0 n,
      flatten-split_from a k m 0 n (omega arith) ∙ whole_from (0 * k + min 0 m) (omega arith),
      split_from-IsEven a k m 0 n (omega arith),
    )

module _ {ℓ} {A : Type ℓ} where
  length-expand_from :
      (k m i : ℕ) (xs : List A)
      → length (expand_from k m i xs).0 + min i m ≡ length xs * k + min (i + length xs) m
  unfolding expand_from
  length-expand_from k m i [] = omega arith
  length-expand_from k m i (x ∷ xs) =
      let repeats : ℕ = if ltb i m then k + 1 else k in
      ground (
        arith,
        length-append (replicate repeats x) (expand_from k m (i + 1) xs).0,
        length-replicate repeats x,
        length-expand_from k m (i + 1) xs,
      )

module _ {ℓ} {A : Type ℓ} where
  abbrev single : A → List A
  single x = x ∷ []

  -- The parts, and the local counts beside them: for every node in turn, `k` times or once more, the list
  -- of that node only and how often it comes.
  abbrev pub AreShared : ℕ → List A → List (List A) → List ℕ → Type ℓ
  AreShared k [] parts locals = (parts ≡ []) × (locals ≡ [])
  AreShared k (x ∷ nodes) parts locals =
      (n : ℕ) × (k ≤ n)
      × (n ≤ k + 1)
      × ((parts' : List (List A)) × ((locals' : List ℕ) × (parts ≡ replicate n (x ∷ []) ++ parts')
            × (locals ≡ replicate n n ++ locals')
            × AreShared k nodes parts' locals'))

  map-replicate :
      (n : ℕ) (x : A) (rest : List A)
      → map single (replicate n x ++ rest) ≡ replicate n (x ∷ []) ++ map single rest
  map-replicate zero x rest = refl
  map-replicate (suc n) x rest = ap (◌∷◌ (x ∷ [])) (map-replicate n x rest)

  expand_from-AreShared :
      (k m i : ℕ) (xs : List A)
      → AreShared k xs (map single (expand_from k m i xs).0) (expand_from k m i xs).1
  unfolding expand_from
  expand_from-AreShared k m i [] = (refl, refl)
  expand_from-AreShared k m i (x ∷ xs) =
      let n : ℕ = if ltb i m then k + 1 else k in
      let rest = expand_from k m (i + 1) xs in
      (
        n,
        ground arith,
        ground arith,
        (
          map single rest.0,
          (rest.1, map-replicate n x rest.0, refl, expand_from-AreShared k m (i + 1) xs),
        ),
      )

  -- Lists of one entry each.
  singles :
      (parts : List (List A))
      → All (λ part. length part ≡ 1) parts
      → parts ≡ map single (flatten parts)
  unfolding flatten
  singles [] h = refl
  singles ([] ∷ parts) h = absurd (omega (arith, h.0))
  singles ((x ∷ []) ∷ parts) h = ap (◌∷◌ (x ∷ [])) (singles parts h.1)
  singles ((x ∷ y ∷ part) ∷ parts) h = absurd (omega (arith, h.0))

expand_list_lem {ℓ} :
    {A : Type ℓ} (nworkers : ℕ) (nodes : List A)
    → 0 < length nodes
    → (expanded : List A × List ℕ) × (expand_list (length nodes) nworkers nodes ≡ ok expanded)
      × (length expanded.0 ≡ nworkers)
      × AreShared (nworkers / length nodes) nodes (map single expanded.0) expanded.1
unfolding expand_list
expand_list_lem nworkers nodes h =
    let k = nworkers / length nodes in
    let m = nworkers % length nodes in
    let whole : k * length nodes + m ≡ nworkers = div-add-mod' nworkers (length nodes) in
    let small : m < length nodes = mod-lt nworkers h in
    (
      expand_from k m 0 nodes,
      ground arith,
      omega (arith, length-expand_from k m 0 nodes),
      expand_from-AreShared k m 0 nodes,
    )

even_assignment_ok :
    (nnodes nworkers : ℕ)
    → 0 < nnodes
    → 0 < nworkers
    → (even : Bool) × (even_assignment nnodes nworkers ≡ ok even)
unfolding even_assignment
even_assignment_ok nnodes nworkers h k =
    (if nnodes % nworkers == 0 then true else nworkers % nnodes == 0, ground arith)

All-IsEven {ℓ} :
    {A : Type ℓ} (k m : ℕ) (P : ℕ → Type 0)
    → ((n : ℕ) → k ≤ n → n ≤ k + min 1 m → P n)
    → (parts : List (List A)) → All (IsEven k m) parts
    → All (λ part. P (length part)) parts
All-IsEven k m P f [] h = tt
All-IsEven k m P f (x ∷ xs) h = (f (length x) h.0.0 h.0.1, All-IsEven k m P f xs h.1)

-- What the division of the nodes promises: a list of nodes for every resource set. Where there are as many
-- resource sets as nodes or more, the nodes come in order, each by itself for as many resource sets as the
-- quotient or one more, with that number as local count. Else each node is in one list only, in order, and
-- the local counts are 1.
abbrev pub IsPartition : ℕ → List String → List (List String) → List ℕ → Type 0
IsPartition num_rsets nodes parts locals =
    (length parts ≡ num_rsets)
    × (length nodes ≤ num_rsets → AreShared (num_rsets / length nodes) nodes parts locals)
    × (num_rsets < length nodes
        → All (λ part. 1 ≤ length part) parts
          × (flatten parts ≡ nodes)
          × (locals ≡ replicate num_rsets 1))

div_same : {l n : ℕ} → l ≡ n → 0 < n → (l / n ≡ 1) × (l % n ≡ 0)
div_same {l} {n} e h = rw e (div_self h, mod_self n)

div_pos : {l n : ℕ} → n < l → 0 < n → 1 ≤ l / n
div_pos {l} {n} h k = grind (arith, div-add-mod' l n, mod-lt l k)

module _ (num_rsets : ℕ) (resources : GlobalResources)
    (some_node : 0 < length resources.global_nodelist) (some_rset : 0 < num_rsets) where
  abbrev Divides : Type 0
  Divides =
      (result : List (List String) × List ℕ) × (get_split_list num_rsets resources ≡ ok result)
      × IsPartition num_rsets resources.global_nodelist result.0 result.1

  shared_nodes : length resources.global_nodelist ≤ num_rsets → Divides
  unfolding get_split_list
  shared_nodes h =
      let nodes = resources.global_nodelist in
      let (even, even_eq) = even_assignment_ok (length nodes) num_rsets some_node some_rset in
      let (expanded, expanded_eq, size, shared) = expand_list_lem num_rsets nodes some_node in
      let (parts, parts_eq, number, whole, sizes) = best_split_lem expanded.0 num_rsets some_rset in
      (
        (parts, expanded.1),
        rw (even_eq, get_split_list) (ground (arith, parts_eq)),
        (
          number,
          (λ _.
              let ones : All (λ part. length part ≡ 1) parts =
                All-IsEven (length expanded.0 / num_rsets) (length expanded.0 % num_rsets)
                  (λ n. n ≡ 1) (λ n lo hi. omega (arith, div_same size some_rset)) parts sizes in
              rw (singles parts ones, whole) shared),
          (λ few. absurd (omega arith)),
        ),
      )

  whole_nodes : num_rsets < length resources.global_nodelist → Divides
  unfolding get_split_list
  whole_nodes h =
      let nodes = resources.global_nodelist in
      let (even, even_eq) = even_assignment_ok (length nodes) num_rsets some_node some_rset in
      let (parts, parts_eq, number, whole, sizes) = best_split_lem nodes num_rsets some_rset in
      (
        (parts, replicate num_rsets 1),
        rw (even_eq, get_split_list) (ground (arith, parts_eq)),
        (
          number,
          (λ many. absurd (omega arith)),
          (λ _. (
            All-IsEven (length nodes / num_rsets) (length nodes % num_rsets) (λ n. 1 ≤ n)
                (λ n lo hi. omega (arith, div_pos h some_rset)) parts sizes,
            whole,
            refl,
          )),
        ),
      )

-- With a node and a resource set at least, the nodes are divided with no error: every resource set
-- gets a list of nodes. With as many resource sets as nodes or more, the nodes come in the order of the node
-- list, each by itself for as many consecutive resource sets as the quotient or one more, which is their
-- local count; otherwise a resource set has a non-empty run of the node list, every node is in one run, and
-- the local counts are 1.
pub get_split_list-IsPartition :
    (num_rsets : ℕ) (resources : GlobalResources)
    → 0 < length resources.global_nodelist
    → 0 < num_rsets
    → (result : List (List String) × List ℕ) × (get_split_list num_rsets resources ≡ ok result)
      × IsPartition num_rsets resources.global_nodelist result.0 result.1
get_split_list-IsPartition num_rsets resources some_node some_rset =
    elim (dec_le (length resources.global_nodelist) num_rsets) [
      | yes h ↦ shared_nodes num_rsets resources some_node some_rset h
      | no h ↦ whole_nodes num_rsets resources some_node some_rset (omega arith)
    ]

-- There is a list of nodes for each resource set whenever the division returns at all.
pub length-get_split_list :
    (num_rsets : ℕ) (resources : GlobalResources) {result : List (List String) × List ℕ}
    → get_split_list num_rsets resources ≡ ok result
    → length result.0 ≡ num_rsets
unfolding get_split_list best_split
length-get_split_list num_rsets resources {result} e =
    let nodes = resources.global_nodelist in
    elim (Outcome-cases (even_assignment (length nodes) num_rsets)) [
      | inr (err, raised) ↦ absurd (ground arith)
      | inl (even, fine) ↦ elim (Bool-cases (leb (length nodes) num_rsets)) [
        | inl many ↦ elim (Outcome-cases (expand_list (length nodes) num_rsets nodes)) [
          | inr (err, raised) ↦ absurd (ground arith)
          | inl (dup, found) ↦ ground (
            arith,
            length-split_from dup.0 (length dup.0 / num_rsets) (length dup.0 % num_rsets) 0
                num_rsets,
          )
        ]
        | inr few ↦ ground (
          arith,
          length-split_from nodes (length nodes / num_rsets) (length nodes % num_rsets) 0 num_rsets,
        )
      ]
    ]
