-- ===== src/Prelude/Text.antt =====
-- The string methods that the source calls, on lists of code units. `to_lower` changes ASCII letters
-- alone: the source compares what it returns with ASCII words.
use kootha.Prelude.Tests.{if◌then◌else◌, ◌==◌, leb}
use kootha.Prelude.Lists.{any, codes}
use kootha.Prelude.Json.{Text, Value, str}
use Prim.Native.Nat.{ℕ, ◌+◌}
use Prim.Native.String.{String}
use mathlib.Core.Option.{Option, some}
use mathlib.Core.Path.{◌≡◌, refl}
use native.Mathlib.Omega.{arith}
use mathlib.Core.Bool.{Bool, true, false, ◌&&◌, ◌||◌}
use mathlib.Core.List.{List, [], ◌∷◌, map, reverse}

abbrev pub text_eq : Text → Text → Bool
text_eq [] [] = true
text_eq [] (d ∷ ds) = false
text_eq (c ∷ cs) [] = false
text_eq (c ∷ cs) (d ∷ ds) = c == d && text_eq cs ds

pub text_eq-same : (a b : Text) → text_eq a b ≡ true → a ≡ b
text_eq-same [] [] h = refl
text_eq-same [] (d ∷ ds) h = absurd (ground (arith, h))
text_eq-same (c ∷ cs) [] h = absurd (ground (arith, h))
text_eq-same (c ∷ cs) (d ∷ ds) h = ground (arith, h, text_eq-same cs ds)

pub text_eq_refl : (a : Text) → text_eq a a ≡ true
text_eq_refl [] = refl
text_eq_refl (c ∷ cs) = ground (arith, text_eq_refl cs)

-- The white space and line ends that `trim` takes off.
unfoldable pub is_space : ℕ → Bool
is_space c =
    leb 9 c && leb c 13
    || (c == 32
        || (c == 160
            || (c == 5760
                || (leb 8192 c && leb c 8202
                    || (c == 8232
                        || (c == 8233
                            || (c == 8239 || (c == 8287 || (c == 12288 || c == 65279)))))))))

unfoldable pub trim_start : Text → Text
trim_start [] = []
trim_start (c ∷ cs) = if is_space c then trim_start cs else c ∷ cs

unfoldable pub trim : Text → Text
unfolding trim_start is_space
trim text = reverse (trim_start (reverse (trim_start text)))

unfoldable pub to_lower : Text → Text
to_lower = map λ c. if leb 65 c && leb c 90 then c + 32 else c

-- `text.split(separator)` for a separator of one code unit.
push_first : ℕ → List Text → List Text
push_first c [] = (c ∷ []) ∷ []
push_first c (part ∷ parts) = (c ∷ part) ∷ parts

unfoldable pub split : ℕ → Text → List Text
unfolding push_first
split separator [] = [] ∷ []
split separator (c ∷ cs) =
    if c == separator then [] ∷ split separator cs else push_first c (split separator cs)

-- `/[\u0000-\u001f\u007f]/.test(text)`.
unfoldable pub has_control : Text → Bool
unfolding any
has_control = any λ c. leb c 31 || c == 127

-- `value === "..."`.
unfoldable pub is_text : String → Option Value → Bool
is_text expected (some (str text)) = text_eq text (codes expected)
is_text expected _ = false
