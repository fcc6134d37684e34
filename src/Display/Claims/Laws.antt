-- ===== src/Display/Claims/Laws.antt =====
-- Which claims are shown, and with what value: pkg/credentialschema/credentialdisplay.go.
use Prim.Native.String.{len, slice}
use Prim.Native.Nat.{◌-◌}
use openvino_wallet.Base.{
  none, some, [], ◌∷◌, All, List, String, Bool, is_empty, ◌≡◌, Option, false, if◌then◌else◌, true,
  ◌&&◌, map, not, ◌⊎◌, ◌≤◌, refl, Bool-cases, inl, ℕ, arith, inr, ◌≢◌,
}
use openvino_wallet.Display.Model.{External, ResolvedClaim, Subject}
use openvino_wallet.Run.Rules.{returned, Returns, after, after_fail_with, Returns-mono, Same}
use openvino_wallet.Display.Claims.{
  claim_mask, with_displays, found_value, is_nil, resolve_each, add_if, Resolving, as_order,
  is_non_claim_data,
}
use openvino_wallet.Display.Value.Laws.{ltb-false}
use openvino_wallet.IssuerMetadata.{Claim, LocalizedClaimDisplay, claim_order_as_int}
use openvino_wallet.Http.{World}
use openvino_wallet.Display.Value.{get_masked_value, get_matching_claim_value, mask_part}
use openvino_wallet.Run.{M, ◌>>=◌, give}
use openvino_wallet.Display.Locale.{label_or, head?}
use openvino_wallet.Base.Json.{Value}

-- The mask is empty or long enough to be cut.
abbrev pub HasMask : Claim → Type 0
HasMask claim = (is_empty claim.mask ≡ true) ⊎ (7 ≤ len claim.mask)

-- The claim is there, and its mask can be cut.
abbrev pub IsWhole : Option Claim → Type 0
IsWhole none = ⊥
IsWhole (some claim) = HasMask claim

-- The claim has display data in some language, and the credential a value for it.
abbrev pub has_display : List LocalizedClaimDisplay → Bool
has_display [] = false
has_display (d ∷ ds) = true

unfoldable pub is_shown : External → Resolving → String → Claim → Bool
is_shown ext r name claim =
    has_display claim.localized_claim_displays
    && not (is_nil (get_matching_claim_value ext r.vc r.subject name))

-- With the option to skip them, claims on the credential itself are left out.
unfoldable pub is_kept : External → Resolving → Bool → String → Claim → Bool
unfolding is_shown
is_kept ext r skip name claim = not (skip && is_non_claim_data name) && is_shown ext r name claim

-- The names of the claims that pass a test, in the order of the definition.
unfoldable pub names_of : (String → Claim → Bool) → List (String × Option Claim) → List String
names_of shown [] = []
names_of shown ((name, none) ∷ rest) = names_of shown rest
names_of shown ((name, some claim) ∷ rest) =
    let others = names_of shown rest in if shown name claim then name ∷ others else others

-- What one claim gives: nothing if it is not shown, and an entry under its name if it is.
abbrev pub Fits : {A : Type 0} → (A → String) → (A → Type 0) → Bool → String → Option A → Type 0
Fits raw_id P shown name none = shown ≡ false
Fits raw_id P shown name (some x) = (shown ≡ true) × (raw_id x ≡ name) × P x

module _ {A : Type 0} (resolve : String → Option Claim → M World (Option A))
    (shown : String → Claim → Bool) (raw_id : A → String) (P : A → Type 0)
    (one : (name : String) (claim : Claim) (w : World)
      → HasMask claim
      → Returns
          (λ o t. (t ≡ w) × Fits raw_id P (shown name claim) name o)
          (Same w)
          (resolve name (some claim) w)) where
  add_if-names :
      (name : String) (claim : Claim) (rest : List (String × Option Claim)) (o : Option A)
      (xs : List A)
      → Fits raw_id P (shown name claim) name o
      → map raw_id xs ≡ names_of shown rest
      → All P xs
      → (map raw_id (add_if o xs) ≡ names_of shown ((name, some claim) ∷ rest))
        × All P (add_if o xs)
  unfolding names_of
  add_if-names name claim rest none xs h names all = (rw h names, all)
  add_if-names name claim rest (some x) xs h names all = (rw (h.0, h.1, names), (h.2, all))

  pub resolve_each-names :
      (claims : List (String × Option Claim)) (w : World)
      → All (λ c. IsWhole c.1) claims
      → Returns
          (λ xs t. (t ≡ w) × (map raw_id xs ≡ names_of shown claims) × All P xs)
          (Same w)
          (resolve_each resolve claims w)
  unfolding resolve_each names_of
  resolve_each-names [] w h = returned (refl, refl, tt)
  resolve_each-names ((name, none) ∷ rest) w h = elim h.0 [ ]
  resolve_each-names ((name, some claim) ∷ rest) w h =
      after (resolve name (some claim))
        (λ o. resolve_each resolve rest >>= λ xs. give (add_if o xs)) w (one name claim w h.0)
        λ o t p. rw p.0 (
          after (resolve_each resolve rest) (λ xs. give (add_if o xs)) w
            (resolve_each-names rest w h.1)
            λ xs u q.
              let n = add_if-names name claim rest o xs p.1 q.1 q.2 in returned (q.0, n.0, n.1))

long_mask : (claim : Claim) → HasMask claim → is_empty claim.mask ≡ false → 7 ≤ len claim.mask
long_mask claim (inl empty) h = absurd (ground arith)
long_mask claim (inr long) h = long

get_masked_value-Same :
    (ext : External) (raw mask masking : String) (w : World)
    → 7 ≤ len mask
    → Returns (Same w) (Same w) (get_masked_value ext raw mask masking w)
unfolding get_masked_value
get_masked_value-Same ext raw mask masking w long = rw (ltb-false (len mask) 7 long) (
    let regex = slice mask 6 (len mask - 1) in
    after_fail_with (ext.compile_error regex)
      (give (mask_part raw (ext.first_submatch regex raw) masking)) w (λ e h. refl)
      (λ h. returned refl))

pub claim_mask-Same :
    (ext : External) (claim : Claim) (masking raw : String) (w : World)
    → HasMask claim
    → Returns (Same w) (Same w) (claim_mask ext claim masking raw w)
unfolding claim_mask
claim_mask-Same ext claim masking raw w h = elim (Bool-cases (is_empty claim.mask)) [
  | inl none_given ↦ rw none_given (returned refl)
  | inr given ↦ rw given (
      after (get_masked_value ext raw claim.mask masking) (λ s. give (some s)) w
        (get_masked_value-Same ext raw claim.mask masking w (long_mask claim h given))
        λ s t p. returned p)
]

pub label_or-ne-none :
    (found : Option LocalizedClaimDisplay) (ds : List LocalizedClaimDisplay)
    → has_display ds ≡ true
    → label_or found (head? ds) ≢ none
label_or-ne-none (some d) ds h = λ p. cc
label_or-ne-none none [] h = absurd (ground arith)
label_or-ne-none none (d ∷ ds) h = λ p. cc

-- What an entry says of its claim, beside the label.
abbrev pub Says : External → Resolving → String → String → Option ℕ → Type 0
Says ext r name raw_value order =
    (raw_value ≡ ext.print (get_matching_claim_value ext r.vc r.subject name))
    × (order ≡ as_order (claim_order_as_int r.config name))

-- An entry is as promised.
abbrev pub IsOf : External → Resolving → ResolvedClaim → Type 0
IsOf ext r x = Says ext r x.raw_id x.raw_value x.order

abbrev pub IsSubjectOf : External → Resolving → Subject → Type 0
IsSubjectOf ext r x = Says ext r x.raw_id x.raw_value x.order

pub with_displays-Fits :
    {A : Type 0} (raw_id : A → String) (P : A → Type 0) (v : Value) (name : String)
    (ds : List LocalizedClaimDisplay) (w : World) (found : M World (Option A))
    → (has_display ds ≡ true
        → Returns
            (λ o t. (t ≡ w) × Fits raw_id P (has_display ds && not (is_nil v)) name o)
            (Same w)
            (found w))
    → Returns
        (λ o t. (t ≡ w) × Fits raw_id P (has_display ds && not (is_nil v)) name o)
        (Same w)
        (with_displays ds found w)
with_displays-Fits raw_id P v name [] w found h = returned (refl, refl)
with_displays-Fits raw_id P v name (d ∷ ds) w found h = h refl

pub found_value-Fits :
    {A : Type 0} (raw_id : A → String) (P : A → Type 0) (v : Value) (name : String) (shown : Bool)
    (w : World) (found : M World (Option A))
    → shown ≡ true
    → (is_nil v ≡ false
        → Returns
            (λ o t. (t ≡ w) × ((x : A) × (o ≡ some x) × (raw_id x ≡ name) × P x))
            (Same w)
            (found w))
    → Returns
        (λ o t. (t ≡ w) × Fits raw_id P (shown && not (is_nil v)) name o)
        (Same w)
        (found_value v found w)
found_value-Fits raw_id P v name shown w found s h = elim (Bool-cases (is_nil v)) [
  | inl nil ↦ rw (s, nil) (returned (refl, refl))
  | inr there ↦
      rw (s, there)
        (Returns-mono (λ o t p. (p.0, rw p.1.1 (refl, p.1.2, p.1.3))) (λ e t p. p) (h there))
]
