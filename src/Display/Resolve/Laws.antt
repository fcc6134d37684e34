-- ===== src/Display/Resolve/Laws.antt =====
-- What `Resolve` gives: pkg/credentialschema/credentialschema.go.
use openvino_wallet.Base.{
  All, length, Pairwise, no_pairs, pair, List, ◌≡◌, ap, suc, refl, some, ◌∙◌,
}
use openvino_wallet.Run.Rules.{returned, Returns, Same, after}
use openvino_wallet.Display.Model.{External}
use openvino_wallet.Display.Locale.{get_issuer_display}
use openvino_wallet.Display.Claims.Shown.{IsUsable}
use openvino_wallet.Display.Build.Laws.{build_credential_displays-AreDisplays}
use openvino_wallet.Display.Process.Laws.{AllThere, wanted, process_opts-IsProcessed}
use openvino_wallet.Display.Resolve.{resolve, masking_or_default}
use openvino_wallet.Display.Options.{ResolveOpt, merge_opts}
use openvino_wallet.IssuerMetadata.{Metadata}
use openvino_wallet.Http.{World}
use openvino_wallet.Display.Process.{process_opts}
use openvino_wallet.Display.Build.{build_credential_displays}

Pairwise-length :
    {A B : Type 0} {R : A → B → Type 0} {xs : List A} {ys : List B}
    → Pairwise R xs ys
    → length ys ≡ length xs
Pairwise-length no_pairs = refl
Pairwise-length (pair r rs) = ap suc (Pairwise-length rs)

-- `Resolve`, given the issuer's metadata itself, never panics and sends nothing where every configuration
-- of the metadata has a definition, whose claims are no nil pointers and have masks that are empty or
-- have at least seven bytes, and no credential is a nil pointer. On success there are as many displays as credentials, and the
-- issuer's display is the one for the preferred locale.
pub resolve-length :
    (ext : External) (opts : List ResolveOpt) (m : Metadata) (w : World)
    → (merge_opts opts).issuer_metadata_source.metadata ≡ some m
    → All (λ c. IsUsable c.1) m.credential_configurations_supported
    → AllThere (merge_opts opts).credential_source
    → Returns
        (λ d t.
          (t ≡ w)
          × (length d.credential_displays ≡ wanted (merge_opts opts).credential_source)
          × (d.issuer_display
              ≡ get_issuer_display ext m.localized_issuer_displays
                  (merge_opts opts).preferred_local))
        (Same w)
        (resolve ext opts w)
unfolding resolve
resolve-length ext opts m w given usable there =
    after (process_opts ext opts) _ w (process_opts-IsProcessed ext opts m w given usable there)
      λ p t h. rw h.0 (
        after
          (build_credential_displays ext p.preferred_locale (masking_or_default p.masking_string)
            p.mappings)
          _ w
          (build_credential_displays-AreDisplays ext p.preferred_locale
            (masking_or_default p.masking_string) p.mappings w h.1.ready)
          λ ds u q.
            returned
              (q.0, Pairwise-length q.1 ∙ h.1.one_each, rw (h.1.same_metadata, h.1.same_locale)))
