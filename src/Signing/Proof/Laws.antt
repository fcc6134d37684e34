-- ===== src/Signing/Proof/Laws.antt =====
-- Which proof is added to a presentation: pkg/ldproof/ldproof.go.
use openvino_wallet.Base.{
  some, [], ◌∷◌, is_some, inl, inr, String, List, ◌≡◌, Bool, true, ◌⊎◌, Bool-cases, false, ◌||◌,
  Option-cases, refl, arith,
}
use openvino_wallet.Run.{ok, Result, on_error, lift}
use openvino_wallet.Run.Rules.{
  returned, failed, Returns, Result-cases, after_fail_with, Returns-mono, after, after_modify,
  wrapping, lift_lem, after_deref,
}
use openvino_wallet.Signing.Proof.{
  External, Options, Presentation, Descriptor, add, add_with, add_first, replace, is_di_supported,
  ld_supported, data_integrity_context, update_presentation_context, linked_data_context, Opt,
  add_data_integrity_proof, add_linked_data_proof, merge_opts, get_key_id_and_type,
}
use openvino_wallet.Signing.Keys.{DocMethod}
use openvino_wallet.Errors.{GoError, wrapped}

-- A proof type that can be made with a key of the type.
unfoldable pub serves : External → String → String → Bool
unfolding is_di_supported ld_supported
serves ext key_type proof_type =
    is_di_supported ext key_type proof_type || is_some (ld_supported ext key_type proof_type)

-- The first of the types that can be made with the key.
pub data IsFirst (ext : External) (key_type : String) : List String → String → Type 0 where
  at_head :
      {t : String} {ts : List String}
      → serves ext key_type t ≡ true
      → IsFirst ext key_type (t ∷ ts) t
  in_tail :
      {t u : String} {ts : List String}
      → serves ext key_type u ≡ false
      → IsFirst ext key_type ts t
      → IsFirst ext key_type (u ∷ ts) t

-- The presentation with a proof of the type: a data integrity proof if the type has a suite for the
-- key, and else a linked data proof, for which the contexts are added first.
abbrev pub Proved :
    External → Options → DocMethod → String → String → String → Presentation → Presentation → Type 0
Proved ext o vm key_id key_type t p p' =
    ((is_di_supported ext key_type t ≡ true)
      × (ext.add_data_integrity_proof (data_integrity_context o vm t key_id) p ≡ ok p'))
    ⊎ ((is_di_supported ext key_type t ≡ false)
        × ((d : Descriptor) × (ld_supported ext key_type t ≡ some d)
            × (ext.add_linked_data_proof (linked_data_context o vm d key_id key_type)
                  (update_presentation_context p)
                ≡ ok p')))

-- After a failure at most the contexts were added.
abbrev pub MaybeContexts : Presentation → GoError → Presentation → Type 0
MaybeContexts p e p' = (p' ≡ p) ⊎ (p' ≡ update_presentation_context p)

replace_lem :
    {R : GoError → Presentation → Type 0} (f : Presentation → Result Presentation)
    (p : Presentation)
    → ((e : GoError) → R e p)
    → Returns (λ _ p'. f p ≡ ok p') R (replace f p)
unfolding replace
replace_lem f p h = elim (Result-cases (f p)) [
  | inl (p', good) ↦ rw (good, replace) (returned refl)
  | inr (e, bad) ↦ rw (bad, replace) (failed (h e))
]

module _ (ext : External) (o : Options) (vm : DocMethod) (key_id key_type : String)
    (p : Presentation) where
  add_first-IsFirst :
      (ts : List String)
      → Returns
          (λ _ p'.
            (t : String) × IsFirst ext key_type ts t × Proved ext o vm key_id key_type t p p')
          (MaybeContexts p)
          (add_first ext o vm key_id key_type ts p)
  unfolding add_first serves add_data_integrity_proof add_linked_data_proof
  add_first-IsFirst [] = failed (inl refl)
  add_first-IsFirst (t ∷ ts) = elim (Bool-cases (is_di_supported ext key_type t)) [
    | inl di ↦ rw di (
        after_fail_with (ext.new_signer_error t key_id) _ p (λ e h. inl refl)
          λ ready.
            Returns-mono (λ _ p' h. (t, at_head (rw di), inl (di, h))) (λ e p' h. h)
              (replace_lem (ext.add_data_integrity_proof (data_integrity_context o vm t key_id)) p
                (λ e. inl refl)))
    | inr not_di ↦ elim (Option-cases (ld_supported ext key_type t)) [
      | inl not_ld ↦
          rw (not_di, not_ld)
            (Returns-mono (λ _ p' h. (h.0, in_tail (rw (not_di, not_ld)) h.1, h.2)) (λ e p' h. h)
              (add_first-IsFirst ts))
      | inr (d, ld) ↦
          rw (not_di, ld)
            (after_modify update_presentation_context
              (replace (ext.add_linked_data_proof (linked_data_context o vm d key_id key_type))) p
              (Returns-mono (λ _ p' h. (t, at_head (rw (not_di, ld)), inr (not_di, (d, ld, h))))
                (λ e p' h. h)
                (replace_lem
                  (ext.add_linked_data_proof (linked_data_context o vm d key_id key_type))
                  (update_presentation_context p) (λ e. inr refl))))
    ]
  ]

add_with-IsFirst :
    (ext : External) (o : Options) (vm : DocMethod) (ts : List String) (p : Presentation)
    → o.ldp_type ≡ some ts
    → Returns
        (λ _ p'.
          (key : String × String) × (get_key_id_and_type ext vm ≡ ok key)
          × ((t : String) × IsFirst ext key.1 ts t × Proved ext o vm key.0 key.1 t p p'))
        (MaybeContexts p)
        (add_with ext o vm p)
unfolding add_with
add_with-IsFirst ext o vm ts p has_types =
    after (on_error (lift (get_key_id_and_type ext vm)) (wrapped "get key ID and type")) _ p
      (wrapping (lift (get_key_id_and_type ext vm)) (λ e. wrapped "get key ID and type" e) p
        (λ e t h. h) (lift_lem (get_key_id_and_type ext vm) p (λ e. inl refl)))
      λ key t h. rw h.0 (
        after_deref o.ldp_type _ p (λ missing. cc)
          λ types same.
            let e : types ≡ ts = ground arith in
            rw e (
              Returns-mono (λ _ p' r. (key, h.1, r)) (λ e p' r. r)
                (add_first-IsFirst ext o vm key.0 key.1 p ts)))

-- Given a verification method and a list of proof types, `Add` never panics. On success the proof is of
-- the first type of the list that the key can make, made with the key of the method: a data integrity
-- proof if the type is a suite for that key, and else a linked data proof on the presentation with the
-- two contexts added. On failure the presentation is unchanged but for those contexts.
pub add-IsFirst :
    (ext : External) (opts : List Opt) (vm : DocMethod) (ts : List String) (p : Presentation)
    → (merge_opts opts).verification_method ≡ some vm
    → (merge_opts opts).ldp_type ≡ some ts
    → Returns
        (λ _ p'.
          (key : String × String) × (get_key_id_and_type ext vm ≡ ok key)
          × ((t : String) × IsFirst ext key.1 ts t
              × Proved ext (merge_opts opts) vm key.0 key.1 t p p'))
        (MaybeContexts p)
        (add ext opts p)
unfolding add
add-IsFirst ext opts vm ts p has_method has_types =
    rw (has_method, add) (add_with-IsFirst ext (merge_opts opts) vm ts p has_types)
