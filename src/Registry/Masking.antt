-- ===== src/Registry/Masking.antt =====
-- What the masking of deviceRegistry.ts leaves of an identifier.
use kootha.Prelude.{
  ℕ, ◌+◌, ◌-◌, ◌≤◌, ◌≡◌, refl, ap, subst, ◌∙◌, some, [], ◌∷◌, ◌++◌, codes, arith, length,
  length-append, drop,
}
use kootha.Prelude.Json.{Text}
use kootha.Registry.{mask_device_identifier}

drop-append : (xs ys : Text) → drop (length (xs ++ ys) - length ys) (xs ++ ys) ≡ ys
drop-append xs ys = rw (length-append xs ys, cancel (length xs) (length ys)) (dropped xs)
  where
    cancel : (m n : ℕ) → m + n - n ≡ m
    cancel m n = omega arith

    dropped : (zs : Text) → drop (length zs) (zs ++ ys) ≡ ys
    dropped [] = refl
    dropped (z ∷ zs) = dropped zs

masked :
    (text : Text)
    → 5 ≤ length text
    → mask_device_identifier (some text) ≡ codes "****" ++ drop (length text - 4) text
unfolding mask_device_identifier
masked [] h = absurd (omega arith)
masked (c ∷ cs) h = ground (arith, h)

-- Of an identifier with more than four characters the mask shows just the last four: it is the same
-- whatever stands before them, and however much of it.
pub mask_device_identifier_lem :
    (xs tail : Text)
    → 1 ≤ length xs
    → length tail ≡ 4
    → mask_device_identifier (some (xs ++ tail)) ≡ codes "****" ++ tail
mask_device_identifier_lem xs tail h k =
    masked (xs ++ tail) (omega (arith, length-append xs tail, h, k))
    ∙ ap (◌++◌ (codes "****"))
        (subst (λ n. drop (length (xs ++ tail) - n) (xs ++ tail) ≡ tail) k (drop-append xs tail))
