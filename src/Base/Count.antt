-- ===== src/Base/Count.antt =====
-- How often a number stands in a list, and the removal of its first occurrence.
use Prim.Native.Nat.{ℕ, ◌+◌, ◌-◌}
use mathlib.Core.Path.{◌≡◌, refl}
use mathlib.Core.Bool.{Bool, true, false}
use mathlib.Core.List.{List, [], ◌∷◌, ◌++◌}
use native.Mathlib.Omega.{arith}
use mathlib.Core.Option.{some}
use Prim.Native.Nat.{zero, suc}
use sherry.Base.Lists.{get_elem?, remove_at}
use sherry.Base.Tests.{◌==◌, if◌then◌else◌}

abbrev pub to_nat : Bool → ℕ
to_nat true = 1
to_nat false = 0

pub count : ℕ → List ℕ → ℕ
count a [] = 0
count a (x ∷ xs) = to_nat (x == a) + count a xs

-- The library's `erase` at native numbers.
pub erase : ℕ → List ℕ → List ℕ
erase a [] = []
erase a (x ∷ xs) = if x == a then xs else x ∷ erase a xs

pub count-nil : (a : ℕ) → count a [] ≡ 0
unfolding count
count-nil a = refl

pub count-cons : (a x : ℕ) (xs : List ℕ) → count a (x ∷ xs) ≡ to_nat (x == a) + count a xs
unfolding count
count-cons a x xs = refl

pub count-append : (a : ℕ) (xs ys : List ℕ) → count a (xs ++ ys) ≡ count a xs + count a ys
unfolding count
count-append a [] ys = omega arith
count-append a (x ∷ xs) ys = omega (arith, count-append a xs ys)

pub count-snoc :
    (a : ℕ) (xs : List ℕ) (x : ℕ) → count a (xs ++ x ∷ []) ≡ count a xs + to_nat (x == a)
unfolding count
count-snoc a xs x = omega (arith, count-append a xs (x ∷ []))

pub erase-cons :
    (a x : ℕ) (xs : List ℕ) → erase a (x ∷ xs) ≡ (if x == a then xs else x ∷ erase a xs)
unfolding erase
erase-cons a x xs = refl

-- Removing an element lowers its own count, if it was there.
pub count-erase : (a x : ℕ) (xs : List ℕ) → count a (erase x xs) ≡ count a xs - to_nat (x == a)
unfolding count erase
count-erase a x [] = ground arith
count-erase a x (y ∷ xs) = ground (arith, count-erase a x xs)

-- One request less.
pub count-remove_at :
    (q : ℕ) (xs : List ℕ) (i p : ℕ)
    → get_elem? xs i ≡ some p
    → count q (remove_at i xs) + to_nat (p == q) ≡ count q xs
unfolding count
count-remove_at q [] i p e = cc
count-remove_at q (x ∷ xs) zero p e = ground arith
count-remove_at q (x ∷ xs) (suc i) p e = ground (arith, count-remove_at q xs i p e)
