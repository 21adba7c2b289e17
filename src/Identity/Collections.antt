-- ===== src/Identity/Collections.antt =====
-- The texts of collections and numbers, as the reader of Identity/Reader.antt finds them.
use kootha.Prelude.{
  ℕ, ◌≤◌, ◌≡◌, refl, ap, ◌∙◌, inl, inr, Bool, true, false, not, List, [], ◌∷◌, ◌++◌, append_assoc,
  arith, ◌==◌, every, Bool-cases,
}
use kootha.Prelude.Json.{Text, Value}
use kootha.Prelude.Print.{join}
use kootha.Identity.Reader.{
  start_of, number_start, is_number_unit, number_part, push_left, opened, cost,
}

abbrev pub comma : Text
comma = b',' ∷ []

abbrev pub is_boundary : Text → Bool
is_boundary [] = true
is_boundary (c ∷ cs) = not (is_number_unit c)

pub number_part-append :
    (digits rest : Text)
    → every is_number_unit digits ≡ true
    → is_boundary rest ≡ true
    → number_part (digits ++ rest) ≡ (digits, rest)
unfolding every
number_part-append [] [] h k = refl
number_part-append [] (c ∷ cs) h k = ground (arith, k)
number_part-append (c ∷ cs) rest h k = elim (Bool-cases (is_number_unit c)) [
  | inl e ↦ rw e (ap (push_left c) (number_part-append cs rest (ground (arith, h)) k))
  | inr e ↦ absurd (ground (arith, h, e))
]

pub number-start : (c : ℕ) → is_number_unit c ≡ true → start_of c ≡ number_start
number-start c h = ground arith

-- The texts of a collection, a comma before each, and what closes it.
abbrev pub tail : ℕ → List Text → Text → Text
tail close [] rest = close ∷ rest
tail close (t ∷ ts) rest = b',' ∷ (t ++ tail close ts rest)

pub join-tail :
    (close : ℕ) (t : Text) (ts : List Text) (rest : Text)
    → (join comma (t ∷ ts) ++ close ∷ []) ++ rest ≡ t ++ tail close ts rest
unfolding join
join-tail close t [] rest = append_assoc t (close ∷ []) rest
join-tail close t (u ∷ us) rest =
    rw
      (
        append_assoc t (b',' ∷ join comma (u ∷ us)) (close ∷ []),
        append_assoc t (b',' ∷ (join comma (u ∷ us) ++ close ∷ [])) rest,
      )
      (ap (λ r. t ++ b',' ∷ r) (join-tail close u us rest))

abbrev pub starts_apart : ℕ → Text → Bool
starts_apart close [] = false
starts_apart close (c ∷ cs) = not (c == close)

pub opened-apart :
    (close : ℕ) (t rest : Text)
    → starts_apart close t ≡ true
    → opened close (t ++ rest) ≡ b',' ∷ (t ++ rest)
opened-apart close [] rest h = absurd (ground (arith, h))
opened-apart close (c ∷ cs) rest h = ground (arith, h)

-- A collection as it is opened.
pub opened-join :
    (close : ℕ) (ts : List Text) (rest : Text)
    → every (starts_apart close) ts ≡ true
    → opened close ((join comma ts ++ close ∷ []) ++ rest) ≡ tail close ts rest
unfolding join every
opened-join close [] rest h = ground arith
opened-join close (t ∷ ts) rest h =
    ap (opened close) (join-tail close t ts rest)
    ∙ opened-apart close t (tail close ts rest) (ground (arith, h))

pub positive-cost : (value : Value) → 1 ≤ cost value
unfolding cost
positive-cost value = ground arith
