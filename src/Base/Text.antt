-- ===== src/Base/Text.antt =====
-- What the sources use of Go's `strings` and `fmt` packages. A text is a native string.
pub mod Laws
use Prim.Native.String
use Prim.Native.Nat.{ℕ, zero, suc, ◌/◌, ◌%◌, ◌-◌}
use Prim.Native.Char.{Char, code}
use Prim.Native.String.{String, [], ◌∷◌, len, slice, count}
use mathlib.Core.Logic.{◌≢◌}
use mathlib.Core.Bool.{◌&&◌, Bool, ◌||◌}
use mathlib.Core.List.{List}
use native.Mathlib.Omega.{arith}
use text.Mathlib.Text.{starts_with, ◌==◌ as str_eq}
use openvino_wallet.Base.Tests.{if◌then◌else◌, ◌==◌, ltb}
use openvino_wallet.Base.Lists.{get_or}

-- The next character belongs to the first part.
prepend : Char → List String → List String
prepend c List.[] = List.◌∷◌ (c ∷ []) List.[]
prepend c (List.◌∷◌ p ps) = List.◌∷◌ (c ∷ p) ps

-- `strings.Split(s, sep)` for a separator of one character, given by its code.
unfoldable pub split : ℕ → String → List String
unfolding prepend
split sep [] = List.◌∷◌ "" List.[]
split sep (c ∷ s) =
    let rest = split sep s in if code c == sep then List.◌∷◌ "" rest else prepend c rest

pub split-ne-nil : (sep : ℕ) (s : String) → split sep s ≢ List.[]
unfolding split prepend
split-ne-nil sep [] = ground arith
split-ne-nil sep (c ∷ s) = ground arith

-- `strings.Split(s, sep)[0]`: `split` is never empty.
unfoldable pub part_before : ℕ → String → String
unfolding split
part_before sep s = get_or (split sep s) 0 ""

-- `strings.Contains(s, part)`.
unfoldable pub contains_text : String → String → Bool
contains_text [] part = starts_with [] part
contains_text (c ∷ s) part = starts_with (c ∷ s) part || contains_text s part

-- `strings.Replace(s, old, new, 1)`.
unfoldable pub replace_first : String → String → String → String
replace_first [] old new = if starts_with [] old then new else []
replace_first (c ∷ s) old new =
    let later = replace_first s old new in
    if starts_with (c ∷ s) old
    then String.◌++◌ new (slice (c ∷ s) (len old) (len (c ∷ s)))
    else c ∷ later

-- The rest of `strings.ReplaceAll`, where the next `skip` characters belong to a match.
unfoldable pub replace_from : ℕ → String → String → String → String
replace_from skip [] old new = if str_eq old "" then new else []
replace_from (suc skip) (c ∷ s) old new = replace_from skip s old new
replace_from zero (c ∷ s) old new =
    let hit = starts_with (c ∷ s) old in
    let rest = replace_from (if hit then count old - 1 else 0) s old new in
    if hit then String.◌++◌ new (if str_eq old "" then c ∷ rest else rest) else c ∷ rest

-- `strings.ReplaceAll(s, old, new)`.
unfoldable pub replace_all : String → String → String → String
unfolding replace_from
replace_all s old new = replace_from 0 s old new

-- `strings.Repeat(s, n)`.
unfoldable pub repeat : String → ℕ → String
repeat s zero = ""
repeat s (suc n) = String.◌++◌ s (repeat s n)

-- `strings.TrimSuffix(s, suffix)`.
unfoldable pub trim_suffix : String → String → String
trim_suffix s suffix =
    let stem = slice s 0 (len s - len suffix) in
    if str_eq s (String.◌++◌ stem suffix) then stem else s

digit : ℕ → String
digit n =
    get_or
      (List.◌∷◌ "0" (
        List.◌∷◌ "1" (
          List.◌∷◌ "2" (
            List.◌∷◌ "3" (
              List.◌∷◌ "4" (
                List.◌∷◌ "5"
                  (List.◌∷◌ "6" (List.◌∷◌ "7" (List.◌∷◌ "8" (List.◌∷◌ "9" List.[]))))))))))
      n ""

decimal_from : ℕ → ℕ → String
decimal_from zero n = ""
decimal_from (suc fuel) n =
    let high = decimal_from fuel (n / 10) in
    if ltb n 10 then digit n else String.◌++◌ high (digit (n % 10))

-- `%d` of a number that is not negative.
unfoldable pub decimal : ℕ → String
unfolding decimal_from digit
decimal n = decimal_from (suc n) n

-- `%04d`.
unfoldable pub pad4 : ℕ → String
unfolding decimal
pad4 n =
    if ltb n 10
    then String.◌++◌ "000" (decimal n)
    else if ltb n 100
    then String.◌++◌ "00" (decimal n)
    else if ltb n 1000
    then String.◌++◌ "0" (decimal n)
    else decimal n

-- `strings.TrimRight(s, cut)` for a cutset of one character, given by its code.
unfoldable pub trim_right : ℕ → String → String
trim_right cut [] = []
trim_right cut (c ∷ s) =
    let rest = trim_right cut s in if str_eq rest "" && code c == cut then [] else c ∷ rest
