-- ===== src/Base/Text/Laws.antt =====
-- Laws of `strings.ReplaceAll`.
use Prim.Native.String.{String, [], ◌∷◌, ◌++◌, count}
use Prim.Native.Char.{Char}
use Prim.Native.Nat.{◌-◌}
use mathlib.Core.Path.{◌≡◌, refl, ap, ◌∙◌}
use mathlib.Core.Logic.{◌≢◌, inl, inr}
use mathlib.Core.Bool.{Bool, true, false, ◌||◌}
use native.Mathlib.Omega.{arith}
use text.Mathlib.Text.{starts_with, ◌==◌ as str_eq}
use text.Mathlib.TextEquality.{eq_iff}
use text.Mathlib.TextLemmas.{length-cons, nil-append, cons-append, length-nil}
use text.Mathlib.TextPositions.{starts_with-append}
use openvino_wallet.Base.Tests.{Bool-cases}
use openvino_wallet.Base.Text.{contains_text, replace_from, replace_all}

not_eq : (s t : String) → s ≢ t → str_eq s t ≡ false
not_eq s t h = elim (Bool-cases (str_eq s t)) [
  | inl same ↦ absurd (h ((eq_iff s t).0 same))
  | inr other ↦ other
]

-- A match is skipped to its end.
replace_from-skip :
    (p rest old new : String)
    → replace_from (count p) (p ++ rest) old new ≡ replace_from 0 rest old new
unfolding replace_from
replace_from-skip [] rest old new = rw (length-nil, nil-append rest)
replace_from-skip (c ∷ p) rest old new =
    rw (length-cons c p, cons-append c p rest) (replace_from-skip p rest old new)

or_false : (a b : Bool) → (a || b) ≡ false → (a ≡ false) × (b ≡ false)
or_false true b h = absurd (ground arith)
or_false false b h = (refl, h)

-- A text in which there is nothing to replace stays as it is.
replace_from_none :
    (s old new : String) → old ≢ "" → contains_text s old ≡ false → replace_from 0 s old new ≡ s
unfolding contains_text replace_from
replace_from_none [] old new some_old h = rw (not_eq old "" some_old)
replace_from_none (c ∷ s) old new some_old h =
    let parts = or_false (starts_with (c ∷ s) old) (contains_text s old) h in
    rw parts.0 (ap (λ t. c ∷ t) (replace_from_none s old new some_old parts.1))

count-pred : (c : Char) (s : String) → count (c ∷ s) - 1 ≡ count s
count-pred c s = omega (arith, length-cons c s)

replace_from-hit :
    (c : Char) (s old new : String)
    → starts_with (c ∷ s) old ≡ true
    → old ≢ ""
    → replace_from 0 (c ∷ s) old new ≡ new ++ replace_from (count old - 1) s old new
unfolding replace_from
replace_from-hit c s old new hit some_old = rw (hit, not_eq old "" some_old)

-- A prefix that does not occur in the rest is replaced once.
pub replace_all-prefix :
    (part rest new : String)
    → part ≢ ""
    → contains_text rest part ≡ false
    → replace_all (part ++ rest) part new ≡ new ++ rest
unfolding replace_all
replace_all-prefix [] rest new some_part h = absurd (some_part refl)
replace_all-prefix (c ∷ p) rest new some_part h =
    let hit : starts_with (c ∷ (p ++ rest)) (c ∷ p) ≡ true =
      rw (← cons-append c p rest) (starts_with-append (c ∷ p) rest) in
    rw (cons-append c p rest) (
      replace_from-hit c (p ++ rest) (c ∷ p) new hit some_part
      ∙ ap (λ t. new ++ t)
          (rw (count-pred c p) (
            replace_from-skip p rest (c ∷ p) new ∙ replace_from_none rest (c ∷ p) new some_part h)))
