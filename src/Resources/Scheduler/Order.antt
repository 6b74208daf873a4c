-- ===== src/Resources/Scheduler/Order.antt =====
-- Sorting and the parts of lists: what the scheduler's list operations keep.
use libensemble.Base.{
  ℕ, zero, suc, ◌≤◌, ◌≡◌, refl, ap, ◌∙◌, true, false, List, [], ◌∷◌, arith, length, take, contains,
  IsDistinct, length-take,
}
use libensemble.Resources.Scheduler.Avail.{insert_up, sorted}

contains-insert_up : (a x : ℕ) (xs : List ℕ) → contains a (insert_up x xs) ≡ contains a (x ∷ xs)
unfolding insert_up
contains-insert_up a x [] = refl
contains-insert_up a x (y ∷ xs) = ground (arith, contains-insert_up a x xs)

pub contains-sorted : (a : ℕ) (xs : List ℕ) → contains a (sorted xs) ≡ contains a xs
unfolding sorted
contains-sorted a [] = refl
contains-sorted a (x ∷ xs) =
    ground (arith, contains-insert_up a x (sorted xs), contains-sorted a xs)

insert_up-IsDistinct :
    (x : ℕ) (xs : List ℕ) → contains x xs ≡ false → IsDistinct xs → IsDistinct (insert_up x xs)
unfolding insert_up
insert_up-IsDistinct x [] h d = (refl, tt)
insert_up-IsDistinct x (y ∷ xs) h d =
    ground (arith, contains-insert_up y x xs, insert_up-IsDistinct x xs)

pub sorted-IsDistinct : (xs : List ℕ) → IsDistinct xs → IsDistinct (sorted xs)
unfolding sorted
sorted-IsDistinct [] d = tt
sorted-IsDistinct (x ∷ xs) d =
    insert_up-IsDistinct x (sorted xs) (contains-sorted x xs ∙ d.0) (sorted-IsDistinct xs d.1)

length-insert_up : (x : ℕ) (xs : List ℕ) → length (insert_up x xs) ≡ suc (length xs)
unfolding insert_up
length-insert_up x [] = refl
length-insert_up x (y ∷ xs) = ground (arith, length-insert_up x xs)

pub length-sorted : (xs : List ℕ) → length (sorted xs) ≡ length xs
unfolding sorted
length-sorted [] = refl
length-sorted (x ∷ xs) = length-insert_up x (sorted xs) ∙ ap suc (length-sorted xs)

-- The list rises.
abbrev pub IsRising : List ℕ → Type 0
IsRising [] = Unit {0}
IsRising (x ∷ []) = Unit {0}
IsRising (x ∷ y ∷ xs) = (x ≤ y) × IsRising (y ∷ xs)

insert_up-IsRising : (x : ℕ) (xs : List ℕ) → IsRising xs → IsRising (insert_up x xs)
unfolding insert_up
insert_up-IsRising x [] h = tt
insert_up-IsRising x (y ∷ []) h = ground arith
insert_up-IsRising x (y ∷ z ∷ xs) h = ground (arith, insert_up-IsRising x (z ∷ xs) h.1)

pub sorted-IsRising : (xs : List ℕ) → IsRising (sorted xs)
unfolding sorted
sorted-IsRising [] = tt
sorted-IsRising (x ∷ xs) = insert_up-IsRising x (sorted xs) (sorted-IsRising xs)

pub contains-take : (n a : ℕ) (xs : List ℕ) → contains a (take n xs) ≡ true → contains a xs ≡ true
contains-take zero a xs h = cc
contains-take (suc n) a [] h = cc
contains-take (suc n) a (x ∷ xs) h = ground (arith, contains-take n a xs)

contains-take-false :
    (n a : ℕ) (xs : List ℕ) → contains a xs ≡ false → contains a (take n xs) ≡ false
contains-take-false zero a xs h = refl
contains-take-false (suc n) a [] h = refl
contains-take-false (suc n) a (x ∷ xs) h = ground (arith, contains-take-false n a xs)

pub take-IsDistinct : (n : ℕ) (xs : List ℕ) → IsDistinct xs → IsDistinct (take n xs)
take-IsDistinct zero xs d = tt
take-IsDistinct (suc n) [] d = tt
take-IsDistinct (suc n) (x ∷ xs) d = (contains-take-false n x xs d.0, take-IsDistinct n xs d.1)

pub length-take_le : (n : ℕ) (xs : List ℕ) → n ≤ length xs → length (take n xs) ≡ n
length-take_le n xs h = omega (arith, length-take n xs)
