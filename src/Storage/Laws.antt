-- ===== src/Storage/Laws.antt =====
-- The store of credentials as a function from IDs: pkg/memstorage/memstorage.go.
use openvino_wallet.Base.{
  none, some, [], ◌∷◌, lookup, remove, Option, String, List, if◌then◌else◌, str_eq, ◌≡◌, arith,
  eq_iff, All, Bool-cases, map, ◌∙◌, ◌⊎◌, eq_refl, inl, inr, refl, ◌↔◌, Option-cases, sym,
}
use openvino_wallet.Storage.{Provider, store, add, remove_credential, get, get_all, new_provider}
use openvino_wallet.Run.{ok}

-- What a client may do to a store.
pub data Op (C : Type 0) : Type 0 where
  adding : Option C → Op C
  removing : String → Op C

module _ {C : Type 0} (contents_id : C → String) where
  unfoldable pub apply_op : Provider C → Op C → Provider C
  unfolding add remove_credential
  apply_op p (adding vc) = (add contents_id p vc).0
  apply_op p (removing id) = (remove_credential p id).0

  unfoldable pub run : Provider C → List (Op C) → Provider C
  unfolding apply_op
  run p [] = p
  run p (op ∷ ops) = run (apply_op p op) ops

  -- The same operation on a function from IDs to credentials.
  unfoldable pub replay_op : (String → Option C) → Op C → String → Option C
  replay_op f (adding none) id = f id
  replay_op f (adding (some vc)) id = if str_eq (contents_id vc) id then some vc else f id
  replay_op f (removing gone) id = if str_eq gone id then none else f id

  unfoldable pub replay : (String → Option C) → List (Op C) → String → Option C
  unfolding replay_op
  replay f [] = f
  replay f (op ∷ ops) = replay (replay_op f op) ops

lookup-remove :
    {C : Type 0} (k j : String) (m : List (String × C))
    → lookup j (remove k m) ≡ (if str_eq k j then none else lookup j m)
lookup-remove k j [] = ground arith
lookup-remove k j ((i, v) ∷ m) =
    ground (arith, eq_iff k j, eq_iff i k, eq_iff i j, lookup-remove k j m)

lookup-store :
    {C : Type 0} (k j : String) (v : C) (m : List (String × C))
    → lookup j (store k v m) ≡ (if str_eq k j then some v else lookup j m)
lookup-store k j v m = ground (arith, lookup-remove k j m)

-- No ID twice.
abbrev pub Distinct : {C : Type 0} → List (String × C) → Type 0
Distinct [] = Unit
Distinct ((k, v) ∷ m) = (lookup k m ≡ none) × Distinct m

remove-Distinct :
    {C : Type 0} (k : String) (m : List (String × C)) → Distinct m → Distinct (remove k m)
remove-Distinct k [] h = tt
remove-Distinct k ((j, v) ∷ m) h = elim (Bool-cases (str_eq j k)) [
  | inl hit ↦ rw hit (remove-Distinct k m h.1)
  | inr miss ↦ rw miss (ground (arith, lookup-remove k j m, h.0), remove-Distinct k m h.1)
]

remove-All :
    {C : Type 0} (P : String × C → Type 0) (k : String) (m : List (String × C))
    → All P m
    → All P (remove k m)
remove-All P k [] h = tt
remove-All P k ((j, v) ∷ m) h = elim (Bool-cases (str_eq j k)) [
  | inl hit ↦ rw hit (remove-All P k m h.1)
  | inr miss ↦ rw miss (h.0, remove-All P k m h.1)
]

-- Some entry is the credential.
abbrev pub IsIn : {C : Type 0} → C → List C → Type 0
IsIn c [] = ⊥
IsIn c (x ∷ xs) = (x ≡ c) ⊎ IsIn c xs

module _ {C : Type 0} (contents_id : C → String) where
  -- Every credential is stored under its own ID, and no ID twice.
  pub record IsWellFormed (p : Provider C) : Type 0 where
    pub own_id : All (λ e. e.0 ≡ contents_id e.1) p.credential_store
    pub distinct : Distinct p.credential_store

  apply_op-IsWellFormed :
      (p : Provider C) (op : Op C) → IsWellFormed p → IsWellFormed (apply_op contents_id p op)
  unfolding apply_op
  apply_op-IsWellFormed p (adding none) h = h
  apply_op-IsWellFormed p (adding (some vc)) h = record {
    own_id = (refl, remove-All _ (contents_id vc) p.credential_store h.own_id);
    distinct = (
      lookup-remove (contents_id vc) (contents_id vc) p.credential_store
          ∙ rw (eq_refl (contents_id vc)),
      remove-Distinct (contents_id vc) p.credential_store h.distinct,
    );
  }
  apply_op-IsWellFormed p (removing id) h = record {
    own_id = remove-All _ id p.credential_store h.own_id;
    distinct = remove-Distinct id p.credential_store h.distinct;
  }

  -- Every sequence of additions and removals keeps each credential under its own ID, and no ID twice.
  pub run-IsWellFormed :
      (p : Provider C) (ops : List (Op C)) → IsWellFormed p → IsWellFormed (run contents_id p ops)
  unfolding run
  run-IsWellFormed p [] h = h
  run-IsWellFormed p (op ∷ ops) h =
      run-IsWellFormed (apply_op contents_id p op) ops (apply_op-IsWellFormed p op h)

  apply_op-replay :
      (p : Provider C) (op : Op C) (f : String → Option C)
      → ((id : String) → lookup id p.credential_store ≡ f id)
      → (id : String)
      → lookup id (apply_op contents_id p op).credential_store ≡ replay_op contents_id f op id
  unfolding apply_op replay_op
  apply_op-replay p (adding none) f h id = h id
  apply_op-replay p (adding (some vc)) f h id =
      lookup-store (contents_id vc) id vc p.credential_store ∙ rw (h id)
  apply_op-replay p (removing gone) f h id = lookup-remove gone id p.credential_store ∙ rw (h id)

  run-replay :
      (p : Provider C) (ops : List (Op C)) (f : String → Option C)
      → ((id : String) → lookup id p.credential_store ≡ f id)
      → (id : String)
      → lookup id (run contents_id p ops).credential_store ≡ replay contents_id f ops id
  unfolding run replay
  run-replay p [] f h id = h id
  run-replay p (op ∷ ops) f h id =
      run-replay (apply_op contents_id p op) ops (replay_op contents_id f op)
        (apply_op-replay p op f h) id

  get-lookup :
      (p : Provider C) (id : String) (c : C)
      → (get p id ≡ ok c) ↔ (lookup id p.credential_store ≡ some c)
  unfolding get
  get-lookup p id c = elim (Option-cases (lookup id p.credential_store)) [
    | inl missing ↦ (λ h. ground arith, λ h. ground arith)
    | inr (d, there) ↦ (λ h. ground arith, λ h. ground arith)
  ]

  IsIn-lookup :
      (m : List (String × C)) (c : C)
      → All (λ e. e.0 ≡ contents_id e.1) m
      → Distinct m
      → IsIn c (map (λ e. e.1) m)
      → lookup (contents_id c) m ≡ some c
  IsIn-lookup [] c own distinct h = elim h [ ]
  IsIn-lookup ((k, v) ∷ m) c own distinct (inl same) = rw (own.0, same, eq_refl (contents_id c))
  IsIn-lookup ((k, v) ∷ m) c own distinct (inr later) =
      let there = IsIn-lookup m c own.1 distinct.1 later in ground (arith, eq_iff k (contents_id c))

  lookup-IsIn :
      (m : List (String × C)) (id : String) (c : C)
      → lookup id m ≡ some c
      → IsIn c (map (λ e. e.1) m)
  lookup-IsIn [] id c h = absurd (ground arith)
  lookup-IsIn ((k, v) ∷ m) id c h = elim (Bool-cases (str_eq k id)) [
    | inl hit ↦ inl (ground arith)
    | inr miss ↦ inr (lookup-IsIn m id c (rw miss at h))
  ]

  -- After any additions and removals from a new store, `Get` gives what the same operations give on a
  -- function from IDs to credentials, where adding a nil credential does nothing; and `GetAll` lists
  -- a credential exactly if `Get` gives it for its own ID.
  pub get-run :
      (ops : List (Op C)) (id : String) (c : C)
      → ((get (run contents_id new_provider ops) id ≡ ok c)
          ↔ (replay contents_id (λ _. none) ops id ≡ some c))
        × (IsIn c (get_all (run contents_id new_provider ops))
            ↔ (get (run contents_id new_provider ops) (contents_id c) ≡ ok c))
  unfolding get_all
  get-run ops id c =
      let p = run contents_id new_provider ops in
      let good = run-IsWellFormed new_provider ops (record { own_id = tt; distinct = tt }) in
      let same = run-replay new_provider ops (λ _. none) (λ _. refl) id in
      (
        (λ h. sym same ∙ (get-lookup p id c).0 h, λ h. (get-lookup p id c).1 (same ∙ h)),
        (
          λ h.
              (get-lookup p (contents_id c) c).1
                (IsIn-lookup p.credential_store c good.own_id good.distinct h),
          λ h.
              lookup-IsIn p.credential_store (contents_id c) c
                ((get-lookup p (contents_id c) c).0 h),
        ),
      )
