-- ===== src/Prelude/Sort.antt =====
-- A stable sort by a comparator, as `Array.prototype.sort` promises: `le a b` stands for
-- `compare(a, b) <= 0`.
use mathlib.Core.List.{Perm}
use mathlib.Core.List.Perm
use kootha.Prelude.Tests.{Bool-cases, if◌then◌else◌}
use kootha.Prelude.Lists.{count, All, All-map_imp, length}
use Prim.Native.Nat.{suc}
use mathlib.Core.Path.{◌≡◌, refl}
use mathlib.Core.Logic.{inl, inr}
use mathlib.Core.Bool.{Bool, true, false}
use mathlib.Core.List.{List, [], ◌∷◌}
use native.Mathlib.Omega.{arith}

module _ {ℓ} {A : Type ℓ} (le : A → A → Bool) where
  unfoldable pub insert : A → List A → List A
  insert x [] = x ∷ []
  insert x (y ∷ ys) = if le x y then x ∷ y ∷ ys else y ∷ insert x ys

  unfoldable pub sort : List A → List A
  unfolding insert
  sort [] = []
  sort (x ∷ xs) = insert x (sort xs)

  -- Each item is at most every later one.
  abbrev pub IsSorted : List A → Type 0
  IsSorted [] = Unit
  IsSorted (x ∷ xs) = All (λ y. le x y ≡ true) xs × IsSorted xs

module _ {ℓ} {A : Type ℓ} (le : A → A → Bool) where
  All-insert {κ} : (P : A → Type κ) (x : A) (ys : List A) → P x → All P ys → All P (insert le x ys)
  unfolding insert
  All-insert P x [] h k = (h, tt)
  All-insert P x (y ∷ ys) h k = elim (Bool-cases (le x y)) [
    | inl e ↦ rw e (h, k)
    | inr e ↦ rw e (k.0, All-insert P x ys h k.1)
  ]

  pub All-sort {κ} : (P : A → Type κ) (xs : List A) → All P xs → All P (sort le xs)
  unfolding sort
  All-sort P [] h = tt
  All-sort P (x ∷ xs) h = All-insert P x (sort le xs) h.0 (All-sort P xs h.1)

  All-of_insert {κ} :
      (P : A → Type κ) (x : A) (ys : List A) → All P (insert le x ys) → P x × All P ys
  unfolding insert
  All-of_insert P x [] h = h
  All-of_insert P x (y ∷ ys) h = kept (All-of_insert P x ys) (le x y) h
    where
      kept :
          (All P (insert le x ys) → P x × All P ys)
          → (b : Bool) → All P (if b then x ∷ y ∷ ys else y ∷ insert le x ys)
          → P x × (P y × All P ys)
      kept shorter true k = k
      kept shorter false k = let (a, rest) = shorter k.1 in (a, (k.0, rest))

  pub All-of_sort {κ} : (P : A → Type κ) (xs : List A) → All P (sort le xs) → All P xs
  unfolding sort
  All-of_sort P [] h = tt
  All-of_sort P (x ∷ xs) h =
      let (a, rest) = All-of_insert P x (sort le xs) h in (a, All-of_sort P xs rest)

  insert-perm : (x : A) (ys : List A) → Perm (insert le x ys) (x ∷ ys)
  unfolding insert
  insert-perm x [] = Perm.refl _
  insert-perm x (y ∷ ys) = elim (Bool-cases (le x y)) [
    | inl e ↦ rw e (Perm.refl _)
    | inr e ↦ rw e (Perm.trans (Perm.cons y (insert-perm x ys)) (Perm.swap x y ys))
  ]

  pub sort-perm : (xs : List A) → Perm (sort le xs) xs
  unfolding sort
  sort-perm [] = Perm.refl _
  sort-perm (x ∷ xs) = Perm.trans (insert-perm x (sort le xs)) (Perm.cons x (sort-perm xs))

  length-insert : (x : A) (ys : List A) → length (insert le x ys) ≡ suc (length ys)
  unfolding insert
  length-insert x [] = refl
  length-insert x (y ∷ ys) = ground (arith, length-insert x ys)

  pub length-sort : (xs : List A) → length (sort le xs) ≡ length xs
  unfolding sort
  length-sort [] = refl
  length-sort (x ∷ xs) = omega (arith, length-insert x (sort le xs), length-sort xs)

  count-insert : (p : A → Bool) (x : A) (ys : List A) → count p (insert le x ys) ≡ count p (x ∷ ys)
  unfolding insert
  count-insert p x [] = refl
  count-insert p x (y ∷ ys) = ground (arith, count-insert p x ys)

  pub count-sort : (p : A → Bool) (xs : List A) → count p (sort le xs) ≡ count p xs
  unfolding sort
  count-sort p [] = refl
  count-sort p (x ∷ xs) = omega (arith, count-insert p x (sort le xs), count-sort p xs)

  module _ (total : (a b : A) → le a b ≡ false → le b a ≡ true)
      (trans : (a b c : A) → le a b ≡ true → le b c ≡ true → le a c ≡ true) where
    insert-IsSorted : (x : A) (ys : List A) → IsSorted le ys → IsSorted le (insert le x ys)
    unfolding insert
    insert-IsSorted x [] h = (tt, tt)
    insert-IsSorted x (y ∷ ys) h = elim (Bool-cases (le x y)) [
      | inl e ↦ rw e ((e, All-map_imp ys (λ z k. trans x y z e k) h.0), h)
      | inr e ↦
          rw e (All-insert (λ z. le y z ≡ true) x ys (total x y e) h.0, insert-IsSorted x ys h.1)
    ]

    pub sort-IsSorted : (xs : List A) → IsSorted le (sort le xs)
    unfolding sort
    sort-IsSorted [] = tt
    sort-IsSorted (x ∷ xs) = insert-IsSorted x (sort le xs) (sort-IsSorted xs)
