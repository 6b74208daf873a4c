-- ===== src/Base/Members.antt =====
-- Membership and repetition in lists of numbers, as Boolean tests.
use Prim.Native.Nat.{ℕ, ◌≤◌, ◌<◌}
use mathlib.Core.Path.{◌≡◌, refl}
use mathlib.Core.Bool.{Bool, true, false, not, ◌&&◌, ◌||◌}
use mathlib.Core.List.{List, [], ◌∷◌, ◌++◌}
use native.Mathlib.Omega.{arith}
use libensemble.Base.Tests.{◌==◌, if◌then◌else◌}
use libensemble.Base.Lists.{filter, length}

-- `a in xs`
abbrev pub contains : ℕ → List ℕ → Bool
contains a [] = false
contains a (x ∷ xs) = if a == x then true else contains a xs

-- No number occurs twice.
abbrev pub IsDistinct : List ℕ → Type 0
IsDistinct [] = Unit {0}
IsDistinct (x ∷ xs) = (contains x xs ≡ false) × IsDistinct xs

-- No number occurs in both lists.
abbrev pub AreDisjoint : List ℕ → List ℕ → Type 0
AreDisjoint xs ys = (a : ℕ) → contains a xs ≡ true → contains a ys ≡ false

pub contains-append :
    (a : ℕ) (xs ys : List ℕ) → contains a (xs ++ ys) ≡ (contains a xs || contains a ys)
contains-append a [] ys = refl
contains-append a (x ∷ xs) ys = ground (arith, contains-append a xs ys)

pub contains-filter :
    (p : ℕ → Bool) (a : ℕ) (xs : List ℕ) → contains a (filter p xs) ≡ (contains a xs && p a)
contains-filter p a [] = refl
contains-filter p a (x ∷ xs) = ground (arith, contains-filter p a xs)

pub filter-IsDistinct : (p : ℕ → Bool) (xs : List ℕ) → IsDistinct xs → IsDistinct (filter p xs)
filter-IsDistinct p [] d = tt
filter-IsDistinct p (x ∷ xs) d = ground (arith, filter-IsDistinct p xs d.1, contains-filter p x xs)

pub append-IsDistinct :
    (xs ys : List ℕ) → IsDistinct xs → IsDistinct ys → AreDisjoint xs ys → IsDistinct (xs ++ ys)
append-IsDistinct [] ys dx dy apart = dy
append-IsDistinct (x ∷ xs) ys dx dy apart = (
  ground (arith, contains-append x xs ys, apart x),
  append-IsDistinct xs ys dx.1 dy (λ a h. ground (arith, apart a)),
)

pub mem_head : (a : ℕ) (xs : List ℕ) → contains a (a ∷ xs) ≡ true
mem_head a xs = ground arith

pub mem_tail : (a x : ℕ) (xs : List ℕ) → contains a xs ≡ true → contains a (x ∷ xs) ≡ true
mem_tail a x xs h = ground arith

-- To show that a number is absent, refute that it is there.
pub absent_of_not : (a : ℕ) (xs : List ℕ) → (contains a xs ≡ true → ⊥) → contains a xs ≡ false
absent_of_not a xs h = ground arith

length-filter : (p : ℕ → Bool) (xs : List ℕ) → length (filter p xs) ≤ length xs
length-filter p [] = omega arith
length-filter p (x ∷ xs) = ground (arith, length-filter p xs)

-- Without a number that occurs, a list is shorter.
filter-shorter :
    (a : ℕ) (xs : List ℕ)
    → contains a xs ≡ true
    → length (filter (λ x. not (x == a)) xs) < length xs
filter-shorter a [] h = ground arith
filter-shorter a (x ∷ xs) h =
    ground (arith, filter-shorter a xs, length-filter (λ y. not (y == a)) xs)

-- Distinct numbers that all occur in a list are no more than its entries.
pub subset_length :
    (xs ys : List ℕ)
    → IsDistinct xs
    → ((a : ℕ) → contains a xs ≡ true → contains a ys ≡ true)
    → length xs ≤ length ys
subset_length [] ys d sub = omega arith
subset_length (x ∷ xs) ys d sub =
    let rest : length xs ≤ length (filter (λ y. not (y == x)) ys) =
      subset_length xs (filter (λ y. not (y == x)) ys) d.1
        (λ a h. ground (arith, contains-filter (λ y. not (y == x)) a ys, sub a, d.0)) in
    let less : length (filter (λ y. not (y == x)) ys) < length ys =
      filter-shorter x ys (sub x (mem_head x xs)) in
    omega (arith, rest, less)
