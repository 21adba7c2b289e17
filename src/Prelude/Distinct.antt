-- ===== src/Prelude/Distinct.antt =====
-- Lists of strings without repetition.
use mathlib.Core.List.{Perm, List, [], ◌∷◌}
use mathlib.Core.List.Perm
use kootha.Prelude.Tests.{Bool-cases, if◌then◌else◌}
use kootha.Prelude.Lists.{str_eq, str_eq_refl, str_eq-same, includes, IsDistinct, every, length}
use Prim.Native.Nat.{suc}
use Prim.Native.String.{String}
use mathlib.Core.Path.{◌≡◌, refl, sym, ap}
use mathlib.Core.Logic.{inl, inr}
use mathlib.Core.Bool.{Bool, true, false, not, ◌&&◌, ◌||◌}
use native.Mathlib.Omega.{arith}

-- `key` taken out once.
unfoldable remove : String → List String → List String
remove key [] = []
remove key (x ∷ xs) = if str_eq key x then xs else x ∷ remove key xs

remove-perm :
    (key : String) (xs : List String) → includes key xs ≡ true → Perm (key ∷ remove key xs) xs
unfolding includes remove
remove-perm key [] h = absurd (ground (arith, h))
remove-perm key (x ∷ xs) h = elim (Bool-cases (str_eq key x)) [
  | inl e ↦ rw (e, str_eq-same key x e) (Perm.refl _)
  | inr e ↦ rw e (
      Perm.trans (Perm.swap x key (remove key xs))
        (Perm.cons x (remove-perm key xs (ground (arith, h, e)))))
]

includes-remove :
    (a b : String) (xs : List String)
    → str_eq a b ≡ false
    → includes a (remove b xs) ≡ includes a xs
unfolding includes remove
includes-remove a b [] h = refl
includes-remove a b (x ∷ xs) h = elim (Bool-cases (str_eq b x)) [
  | inl e ↦ rw (e, sym (str_eq-same b x e)) (ground (arith, h))
  | inr e ↦ rw e (ap (λ r. str_eq a x || r) (includes-remove a b xs h))
]

length-remove :
    (a : String) (xs : List String) → includes a xs ≡ true → suc (length (remove a xs)) ≡ length xs
unfolding includes remove
length-remove a [] h = absurd (ground (arith, h))
length-remove a (x ∷ xs) h = elim (Bool-cases (str_eq a x)) [
  | inl e ↦ rw e refl
  | inr e ↦ rw e (ap suc (length-remove a xs (ground (arith, h, e))))
]

-- Distinct strings that all stand in a list that is no longer are the list's items.
pub every-perm :
    (xs ys : List String)
    → IsDistinct xs
    → every (λ x. includes x ys) xs ≡ true
    → length ys ≡ length xs
    → Perm ys xs
unfolding every includes
every-perm [] [] d h l = Perm.refl _
every-perm [] (y ∷ ys) d h l = absurd (omega (arith, l))
every-perm (x ∷ xs) ys d h l = Perm.trans (Perm.symm (remove-perm x ys found)) (
    Perm.cons x (
      every-perm xs (remove x ys) d.1 (kept xs d.0 (ground (arith, h)))
        (omega (arith, l, length-remove x ys found))))
  where
    found : includes x ys ≡ true
    found = ground (arith, h)

    kept :
        (rest : List String)
        → includes x rest ≡ false
        → every (λ z. includes z ys) rest ≡ true
        → every (λ z. includes z (remove x ys)) rest ≡ true
    kept [] k e = refl
    kept (z ∷ zs) k e = elim (Bool-cases (str_eq x z)) [
      | inl same ↦ absurd (ground (arith, k, same))
      | inr other ↦ ground (arith, includes-remove z x ys (other_way z other), kept zs, k, e)
    ]
      where
        other_way : (z : String) → str_eq x z ≡ false → str_eq z x ≡ false
        other_way z other = elim (Bool-cases (str_eq z x)) [
          | inl e ↦ absurd (ground (arith, other, str_eq_refl x, ap (str_eq x) (str_eq-same z x e)))
          | inr e ↦ e
        ]

unfoldable pub are_distinct : List String → Bool
unfolding includes
are_distinct [] = true
are_distinct (x ∷ xs) = not (includes x xs) && are_distinct xs

pub are_distinct-IsDistinct : (xs : List String) → are_distinct xs ≡ true → IsDistinct xs
unfolding are_distinct
are_distinct-IsDistinct [] h = tt
are_distinct-IsDistinct (x ∷ xs) h =
    (ground (arith, h), are_distinct-IsDistinct xs (ground (arith, h)))
