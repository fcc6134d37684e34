-- ===== src/Run/Success.antt =====
-- Rules for what a method ensures where it succeeds: `Ensures Q r` says nothing of a run that fails
-- or panics.
use openvino_wallet.Base.{Option, none, some, ◌≡◌, refl}
use openvino_wallet.Errors.{GoError}
use openvino_wallet.Run.Rules.{Returns, returned, failed}
use openvino_wallet.Run.{
  Run, done, fail, crash, M, chain, ◌>>=◌, ◌>>◌, modify, deref, Result, ok, err, lift, rewrap,
  on_error, within, zoom, gets,
}

pub data Ensures {S A : Type 0} (Q : A → S → Type 0) : Run S A → Type 0 where
  succeeds : {a : A} {s : S} → Q a s → Ensures Q (done a s)
  fails : {e : GoError} {s : S} → Ensures Q (fail e s)
  panics : {s : S} → Ensures Q (crash s)

pub ensured : {S A : Type 0} {Q : A → S → Type 0} {a : A} {s : S} → Ensures Q (done a s) → Q a s
ensured (succeeds q) = q

module _ {S A : Type 0} {Q : A → S → Type 0} where
  Ensures-rewrap : {r : Run S A} (f : GoError → GoError) → Ensures Q r → Ensures Q (rewrap r f)
  Ensures-rewrap f (succeeds q) = succeeds q
  Ensures-rewrap f fails = fails
  Ensures-rewrap f panics = panics

  pub Ensures-mono :
      {Q' : A → S → Type 0} {r : Run S A}
      → ((a : A) (s : S) → Q a s → Q' a s)
      → Ensures Q r
      → Ensures Q' r
  Ensures-mono f (succeeds q) = succeeds (f _ _ q)
  Ensures-mono f fails = fails
  Ensures-mono f panics = panics

  pub Ensures-on_error :
      (m : M S A) (f : GoError → GoError) (s : S) → Ensures Q (m s) → Ensures Q (on_error m f s)
  unfolding on_error
  Ensures-on_error m f s h = Ensures-rewrap f h

module _ {S A : Type 0} where
  pub Ensures-deref : (o : Option A) (s : S) → Ensures (λ a t. (t ≡ s) × (o ≡ some a)) (deref o s)
  unfolding deref
  Ensures-deref none s = panics
  Ensures-deref (some a) s = succeeds (refl, refl)

  pub Ensures-lift : (r : Result A) (s : S) → Ensures (λ a t. (t ≡ s) × (r ≡ ok a)) (lift r s)
  unfolding lift
  Ensures-lift (ok a) s = succeeds (refl, refl)
  Ensures-lift (err e) s = fails

module _ {S A B : Type 0} {P : A → S → Type 0} {Q : B → S → Type 0} where
  Ensures-chain :
      {r : Run S A} (f : A → M S B)
      → Ensures P r
      → ((a : A) (s : S) → P a s → Ensures Q (f a s))
      → Ensures Q (chain r f)
  Ensures-chain f (succeeds {a} {s} p) k = k a s p
  Ensures-chain f fails k = fails
  Ensures-chain f panics k = panics

  pub Ensures->>= :
      (m : M S A) (f : A → M S B) (s : S)
      → Ensures P (m s)
      → ((a : A) (t : S) → P a t → Ensures Q (f a t))
      → Ensures Q ((m >>= f) s)
  unfolding ◌>>=◌
  Ensures->>= m f s h k = Ensures-chain f h k

module _ {S B : Type 0} {Q : B → S → Type 0} where
  pub Ensures-modify :
      (change : S → S) (k : M S B) (s : S)
      → Ensures Q (k (change s))
      → Ensures Q ((modify change >> k) s)
  unfolding ◌>>◌
  Ensures-modify change k s h = h

module _ {S T A : Type 0} {P : A → T → Type 0} {Q : A → S → Type 0} where
  pub Ensures-zoom :
      (get : S → T) (put : T → S → S) (m : M T A) (s : S)
      → Ensures P (m (get s))
      → ((a : A) (t : T) → P a t → Q a (put t s))
      → Ensures Q (zoom get put m s)
  unfolding zoom
  Ensures-zoom get put m s h k = go h
    where
      go : {r : Run T A} → Ensures P r → Ensures Q (within (λ t. put t s) r)
      go (succeeds p) = succeeds (k _ _ p)
      go fails = fails
      go panics = panics

-- A method that fails and leaves the state as it was.
pub data IsRejected {S A : Type 0} (s : S) : Run S A → Type 0 where
  rejected : {e : GoError} → IsRejected s (fail e s)

-- A method that panics.
pub data IsPanic {S A : Type 0} : Run S A → Type 0 where
  panicked : {s : S} → IsPanic (crash s)

pub panics-first : {S A B : Type 0} {r : Run S A} (f : A → M S B) → IsPanic r → IsPanic (chain r f)
panics-first f panicked = panicked

pub Ensures-any : {S A : Type 0} (r : Run S A) → Ensures (λ a s. Unit {0}) r
Ensures-any (done a s) = succeeds tt
Ensures-any (fail e s) = fails
Ensures-any (crash s) = panics

-- A step without a value.
module _ {S B : Type 0} {P : S → Type 0} {Q : B → S → Type 0} where
  Ensures-chain_ :
      {r : Run S (Unit {0})} (k : M S B)
      → Ensures (λ _. P) r
      → ((s : S) → P s → Ensures Q (k s))
      → Ensures Q (chain r (λ _. k))
  Ensures-chain_ k (succeeds {a} {s} p) h = h s p
  Ensures-chain_ k fails h = fails
  Ensures-chain_ k panics h = panics

  pub Ensures->> :
      (m : M S (Unit {0})) (k : M S B) (s : S)
      → Ensures (λ _. P) (m s)
      → ((t : S) → P t → Ensures Q (k t))
      → Ensures Q ((m >> k) s)
  unfolding ◌>>◌
  Ensures->> m k s h g = Ensures-chain_ k h g

module _ {S A B : Type 0} {Q : B → S → Type 0} where
  pub Ensures-gets :
      (get : S → A) (f : A → M S B) (s : S)
      → Ensures Q (f (get s) s)
      → Ensures Q ((gets get >>= f) s)
  unfolding ◌>>=◌
  Ensures-gets get f s h = h

module _ {S A : Type 0} {Q : A → S → Type 0} where
  -- The value and the state are those of the run.
  pub Ensures-known : {r : Run S A} → Ensures Q r → Ensures (λ a t. Q a t × (r ≡ done a t)) r
  Ensures-known (succeeds q) = succeeds (q, refl)
  Ensures-known fails = fails
  Ensures-known panics = panics

  pub Returns-Ensures : {R : GoError → S → Type 0} {r : Run S A} → Returns Q R r → Ensures Q r
  Returns-Ensures (returned q) = succeeds q
  Returns-Ensures (failed h) = fails
