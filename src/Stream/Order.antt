-- ===== src/Stream/Order.antt =====
-- One step of a stream, and two in a row.
use sherry.Base.{
  ℕ, zero, suc, ◌+◌, ◌-◌, ◌≡◌, ap, List, [], ◌∷◌, ◌++◌, append-nil, append_assoc, length,
  length-append, drop, arith,
}
use mathlib.Core.List.{Sublist}
use mathlib.Core.List.Sublist
use mathlib.Core.List.{nil-sublist}
use sherry.Stream.{Drains}

drop-sublist : (n : ℕ) (xs : List ℕ) → Sublist (drop n xs) xs
drop-sublist zero xs = Sublist.refl xs
drop-sublist (suc n) [] = Sublist.refl []
drop-sublist (suc n) (x ∷ xs) = Sublist.cons x (drop-sublist n xs)

length-drop-le :
    (n : ℕ) (xs : List ℕ) → length xs ≡ length (drop n xs) + (length xs - length (drop n xs))
length-drop-le zero xs = omega arith
length-drop-le (suc n) [] = omega arith
length-drop-le (suc n) (x ∷ xs) = omega (arith, length-drop-le n xs)

-- What is given is the front of what was there.
pub Drains-given : (given had left : List ℕ) → given ++ left ≡ had → Drains given [] 0 had left
Drains-given given had left e = record {
  in_order = rw (e, append-nil had) (Sublist.refl had);
  balance = omega (arith, ap length e, length-append given left);
}

pub Drains-same : (had left : List ℕ) → left ≡ had → Drains [] [] 0 had left
Drains-same had left e = Drains-given [] had left e

-- Nothing is left.
pub Drains-lost : (had : List ℕ) → Drains [] [] (length had) had []
Drains-lost had = record { in_order = nil-sublist (had ++ []); balance = omega arith }

-- A new buffer, read from `k` on.
pub Drains-arrived :
    (had buf : List ℕ) (k : ℕ)
    → Drains [] buf (length had + (length buf - length (drop k buf))) had (drop k buf)
Drains-arrived had buf k = record {
  in_order = Sublist.append (nil-sublist had) (drop-sublist k buf);
  balance = omega (arith, length-drop-le k buf);
}

pub Drains-then :
    (g0 g1 a0 a1 : List ℕ) (l0 l1 : ℕ) (xs ys zs : List ℕ)
    → Drains g0 a0 l0 xs ys
    → Drains g1 a1 l1 ys zs
    → Drains (g0 ++ g1) (a0 ++ a1) (l0 + l1) xs zs
Drains-then g0 g1 a0 a1 l0 l1 xs ys zs d e = record {
  in_order =
      rw (append_assoc g0 g1 zs, ← append_assoc xs a0 a1)
        (Sublist.trans (rw (append_assoc g0 ys a1) (Sublist.append (Sublist.refl g0) e.in_order))
          (Sublist.append d.in_order (Sublist.refl a1)));
  balance = omega (arith, d.balance, e.balance, length-append g0 g1, length-append a0 a1);
}
