-- ===== src/Pool/Counts.antt =====
-- How often a number stands in a list, through the list operations of the pool.
use dbmesh.Prelude.{
  ℕ, ◌+◌, ◌-◌, ◌≡◌, refl, arith, List, [], ◌∷◌, ◌++◌, if◌then◌else◌, ◌==◌, length, ltb,
}
use dbmesh.Pool.{contains, insert, erase_one}

abbrev pub count : ℕ → List ℕ → ℕ
count c [] = 0
count c (x ∷ xs) = (if x == c then 1 else 0) + count c xs

pub count-append : (c : ℕ) (xs ys : List ℕ) → count c (xs ++ ys) ≡ count c xs + count c ys
count-append c [] ys = omega arith
count-append c (x ∷ xs) ys = omega (arith, count-append c xs ys)

pub contains-count : (c : ℕ) (xs : List ℕ) → contains c xs ≡ ltb 0 (count c xs)
contains-count c [] = refl
contains-count c (x ∷ xs) = ground (arith, contains-count c xs)

pub count-insert :
    (c x : ℕ) (xs : List ℕ)
    → count x xs ≡ 0
    → count c (insert x xs) ≡ (if x == c then 1 else 0) + count c xs
unfolding insert
count-insert c x xs h = ground (arith, contains-count x xs)

pub count-erase_one :
    (c x : ℕ) (xs : List ℕ) → count c (erase_one x xs) ≡ count c xs - (if x == c then 1 else 0)
unfolding erase_one
count-erase_one c x [] = ground arith
count-erase_one c x (y ∷ ys) = ground (arith, count-erase_one c x ys)

pub length-erase_one :
    (x : ℕ) (xs : List ℕ) → length (erase_one x xs) + (if contains x xs then 1 else 0) ≡ length xs
unfolding erase_one
length-erase_one x [] = omega arith
length-erase_one x (y ∷ ys) = ground (arith, length-erase_one x ys)
