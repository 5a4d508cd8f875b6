-- ===== src/Table/Slots.antt =====
-- The array of slots: where `reg_actor` finds room, and what a write to a slot changes.
use sherry.Base.{
  get_elem?-lt, ℕ, zero, suc, ◌+◌, ◌≤◌, ◌<◌, ◌≡◌, refl, ap, Option, none, some, List, [], ◌∷◌, ◌++◌,
  arith, length, get_elem?, set, replicate, length-append, if◌then◌else◌, ltb,
}
use mathlib.Core.Option
use sherry.Actor.{Ptr}
use sherry.Sched.{find_slot, room_for, room}
use sherry.Table.{occupied}

-- One more or one less.
pub occupied-fill :
    (xs : List (Option Ptr)) (i : ℕ) (p : Ptr)
    → get_elem? xs i ≡ some none
    → occupied (set xs i (some p)) ≡ suc (occupied xs)
unfolding occupied
occupied-fill [] i p e = cc
occupied-fill (none ∷ xs) zero p e = refl
occupied-fill (some q ∷ xs) zero p e = cc
occupied-fill (none ∷ xs) (suc i) p e = occupied-fill xs i p e
occupied-fill (some q ∷ xs) (suc i) p e = ap suc (occupied-fill xs i p e)

pub occupied-clear :
    (xs : List (Option Ptr)) (i : ℕ) (p : Ptr)
    → get_elem? xs i ≡ some (some p)
    → suc (occupied (set xs i none)) ≡ occupied xs
unfolding occupied
occupied-clear [] i p e = cc
occupied-clear (none ∷ xs) zero p e = cc
occupied-clear (some q ∷ xs) zero p e = refl
occupied-clear (none ∷ xs) (suc i) p e = occupied-clear xs i p e
occupied-clear (some q ∷ xs) (suc i) p e = ap suc (occupied-clear xs i p e)

occupied-append : (xs ys : List (Option Ptr)) → occupied (xs ++ ys) ≡ occupied xs + occupied ys
unfolding occupied
occupied-append [] ys = omega arith
occupied-append (none ∷ xs) ys = occupied-append xs ys
occupied-append (some p ∷ xs) ys = omega (arith, occupied-append xs ys)

pub occupied-replicate : (n : ℕ) → occupied (replicate n none) ≡ 0
unfolding occupied
occupied-replicate zero = refl
occupied-replicate (suc n) = occupied-replicate n

-- Beyond the old array stand the NULLs of `memset`.
get_elem?-grow :
    (xs : List (Option Ptr)) (n j : ℕ)
    → get_elem? (xs ++ replicate n none) j ≡ (
        if ltb j (length xs)
        then get_elem? xs j
        else if ltb j (length xs + n)
        then some none
        else none)
get_elem?-grow [] zero j = ground arith
get_elem?-grow [] (suc n) zero = ground arith
get_elem?-grow [] (suc n) (suc j) = ground (arith, get_elem?-grow [] n j)
get_elem?-grow (x ∷ xs) n zero = ground arith
get_elem?-grow (x ∷ xs) n (suc j) = ground (arith, get_elem?-grow xs n j)

-- The table in which `reg_actor` registers: every actor where it was, no new one, and a free slot.
pub record Room (xs : List (Option Ptr)) (ys : List (Option Ptr)) (id : ℕ) : Type 0 where
  pub free : get_elem? ys id ≡ some none
  pub kept : (j p : ℕ) → get_elem? xs j ≡ some (some p) → get_elem? ys j ≡ some (some p)
  pub no_more : (j p : ℕ) → get_elem? ys j ≡ some (some p) → get_elem? xs j ≡ some (some p)
  pub same_count : occupied ys ≡ occupied xs
  pub lowest : (j : ℕ) → j < id → (p : ℕ) × (get_elem? xs j ≡ some (some p))
  pub long_enough : length xs ≤ length ys

-- A slot that is found is free, and it is the first; if none is found, all are taken.
abbrev Found : List (Option Ptr) → Option ℕ → Type 0
Found xs none = (j : ℕ) → j < length xs → (p : ℕ) × (get_elem? xs j ≡ some (some p))
Found xs (some i) =
    (get_elem? xs i ≡ some none) × ((j : ℕ) → j < i → (p : ℕ) × (get_elem? xs j ≡ some (some p)))

next_slot-Found :
    (p : Ptr) (xs : List (Option Ptr)) (o : Option ℕ)
    → Found xs o
    → Found (some p ∷ xs) (Option.map suc o)
next_slot-Found p xs none f = all_taken
  where
    all_taken :
        (j : ℕ) → j < suc (length xs) → (q : ℕ) × (get_elem? (some p ∷ xs) j ≡ some (some q))
    all_taken zero h = (p, refl)
    all_taken (suc j) h = f j (omega arith)
next_slot-Found p xs (some i) f = (f.0, before)
  where
    before : (j : ℕ) → j < suc i → (q : ℕ) × (get_elem? (some p ∷ xs) j ≡ some (some q))
    before zero h = (p, refl)
    before (suc j) h = f.1 j (omega arith)

find_slot-Found : (xs : List (Option Ptr)) → Found xs (find_slot xs)
unfolding find_slot
find_slot-Found [] = λ j h. elim h [ ]
find_slot-Found (none ∷ xs) = (refl, λ j h. elim h [ ])
find_slot-Found (some p ∷ xs) = next_slot-Found p xs (find_slot xs) (find_slot-Found xs)

room_for-Room :
    (xs : List (Option Ptr)) (o : Option ℕ)
    → 0 < length xs
    → Found xs o
    → Room xs (room_for xs o).0 (room_for xs o).1
unfolding room_for
room_for-Room xs none h f = record {
  free = ground (arith, get_elem?-grow xs (length xs) (length xs));
  kept = λ j p e. ground (arith, get_elem?-grow xs (length xs) j, get_elem?-lt xs j (some p));
  no_more = λ j p e. ground (arith, get_elem?-grow xs (length xs) j);
  same_count =
      omega
        (arith, occupied-append xs (replicate (length xs) none), occupied-replicate (length xs));
  lowest = f;
  long_enough = omega (arith, length-append xs (replicate (length xs) none));
}
room_for-Room xs (some i) h f = record {
  free = f.0;
  kept = λ j p e. e;
  no_more = λ j p e. e;
  same_count = refl;
  lowest = f.1;
  long_enough = omega arith;
}

-- The slot that `reg_actor` takes is the first free one, or the first behind an array that is full;
-- every actor in the table keeps its id.
pub room-Room : (xs : List (Option Ptr)) → 0 < length xs → Room xs (room xs).0 (room xs).1
unfolding room
room-Room xs h = room_for-Room xs (find_slot xs) h (find_slot-Found xs)
