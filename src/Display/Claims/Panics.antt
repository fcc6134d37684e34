-- ===== src/Display/Claims/Panics.antt =====
-- A mask that is too short to be cut: pkg/credentialschema/credentialdisplay.go.
use Prim.Native.String.{len}
use Prim.Native.Nat.{◌<◌}
use openvino_wallet.Base.{
  [], ◌∷◌, none, some, true, false, ℕ, String, ltb, ◌≡◌, arith, str_eq, is_empty, List, ◌&&◌, not,
  Bool, Option, refl, ◌≢◌, ◌∙◌,
}
use openvino_wallet.Display.Model.{External}
use openvino_wallet.Display.Claims.Laws.{label_or-ne-none, is_shown, has_display}
use openvino_wallet.Run.{crash, ◌>>=◌, lift, M, deref}
use openvino_wallet.Display.Claims.{
  resolve_claim, resolve_claim_all_locale, resolve_value, resolve_value_all_locale, claim_mask,
  claim_attachment, with_displays, found_value, Resolving, is_nil, resolve_there,
  resolve_there_all_locale,
}
use openvino_wallet.IssuerMetadata.{Claim, LocalizedClaimDisplay}
use openvino_wallet.Http.{World}
use openvino_wallet.Display.Value.{get_masked_value, get_matching_claim_value}
use openvino_wallet.Display.Locale.{get_localized_label}
use openvino_wallet.Base.Json.{Value}

ltb-true : (a b : ℕ) → a < b → ltb a b ≡ true
ltb-true a b h = ground arith

and_parts : (a b : Bool) → (a && not b) ≡ true → (a ≡ true) × (b ≡ false)
and_parts true true h = absurd (ground arith)
and_parts true false h = (refl, refl)
and_parts false b h = absurd (ground arith)

with_displays-crash :
    {A : Type 0} (ds : List LocalizedClaimDisplay) (found : M World (Option A)) (w : World)
    → has_display ds ≡ true
    → found w ≡ crash w
    → with_displays ds found w ≡ crash w
with_displays-crash [] found w some_display h = absurd (ground arith)
with_displays-crash (d ∷ ds) found w some_display h = h

found_value-crash :
    {A : Type 0} (v : Value) (found : M World (Option A)) (w : World)
    → is_nil v ≡ false
    → found w ≡ crash w
    → found_value v found w ≡ crash w
found_value-crash v found w there h = rw there h

deref-crash :
    {A B : Type 0} (o : Option A) (f : A → M World B) (w : World)
    → o ≢ none
    → ((a : A) → f a w ≡ crash w)
    → (deref o >>= f) w ≡ crash w
unfolding deref ◌>>=◌
deref-crash none f w there h = absurd (there refl)
deref-crash (some a) f w there h = h a

deref-some :
    {A B : Type 0} (a : A) (f : A → M World B) (w : World) → (deref (some a) >>= f) w ≡ f a w
unfolding deref ◌>>=◌
deref-some a f w = refl

module _ (ext : External) (r : Resolving) (name : String) (claim : Claim) (w : World)
    (plain_type : str_eq claim.value_type "attachment" ≡ false)
    (masked : is_empty claim.mask ≡ false) (short : len claim.mask < 7) where
  claim_mask-crash : (masking raw : String) → claim_mask ext claim masking raw w ≡ crash w
  unfolding claim_mask get_masked_value ◌>>=◌
  claim_mask-crash masking raw = rw (masked, ltb-true (len claim.mask) 7 short)

  resolve_value-crash :
      (label : String × String) (v : Value) → resolve_value ext r name claim label v w ≡ crash w
  unfolding resolve_value ◌>>=◌ lift claim_attachment
  resolve_value-crash label v = rw (plain_type, claim_mask-crash r.masking_string (ext.print v))

  resolve_value_all_locale-crash :
      (v : Value) → resolve_value_all_locale ext r name claim v w ≡ crash w
  unfolding resolve_value_all_locale ◌>>=◌ lift claim_attachment
  resolve_value_all_locale-crash v =
      rw (plain_type, claim_mask-crash r.masking_string (ext.print v))

  -- A claim that is shown, and is no attachment, is a panic where its mask has one to six bytes, in one
  -- language as in all.
  pub resolve_claim-crash :
      (preferred : String)
      → is_shown ext r name claim ≡ true
      → (resolve_claim ext r preferred name (some claim) w ≡ crash w)
        × (resolve_claim_all_locale ext r name (some claim) w ≡ crash w)
  unfolding resolve_claim resolve_claim_all_locale resolve_there resolve_there_all_locale is_shown
      get_localized_label
  resolve_claim-crash preferred shown =
      let ds = claim.localized_claim_displays in
      let v = get_matching_claim_value ext r.vc r.subject name in
      let parts = and_parts (has_display ds) (is_nil v) shown in
      (
        deref-some claim _ w
            ∙ with_displays-crash ds _ w parts.0 (
                deref-crash _ _ w (label_or-ne-none _ ds parts.0)
                  λ label. found_value-crash v _ w parts.1 (resolve_value-crash label v)),
        deref-some claim _ w
            ∙ with_displays-crash ds _ w parts.0
                (found_value-crash v _ w parts.1 (resolve_value_all_locale-crash v)),
      )
