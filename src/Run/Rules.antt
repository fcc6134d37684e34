-- ===== src/Run/Rules.antt =====
-- Rules for what a method ensures: `Returns Q R r` says that the run `r` did not panic, that its
-- value and state satisfy `Q` on success, and its error and state `R` on failure.
use openvino_wallet.Base.{
  Bool, true, false, Option, none, some, ◌≡◌, ◌≢◌, ◌⊎◌, inl, inr, refl, if◌then◌else◌,
}
use openvino_wallet.Errors.{GoError}
use openvino_wallet.Run.{
  Run, done, fail, crash, M, chain, ◌>>=◌, ◌>>◌, gets, modify, reject_if, fail_with, deref, Result,
  ok, err, lift, rewrap, on_error, within, zoom,
}

pub data Returns {S A : Type 0} (Q : A → S → Type 0) (R : GoError → S → Type 0)
    : Run S A → Type 0 where
  returned : {a : A} {s : S} → Q a s → Returns Q R (done a s)
  failed : {e : GoError} {s : S} → R e s → Returns Q R (fail e s)

-- The state is as it was.
abbrev pub Same : {S A : Type 0} → S → A → S → Type 0
Same s a t = t ≡ s

module _ {S A : Type 0} {Q : A → S → Type 0} {R : GoError → S → Type 0} where
  -- A weaker postcondition.
  pub Returns-mono :
      {Q' : A → S → Type 0} {R' : GoError → S → Type 0} {r : Run S A}
      → ((a : A) (s : S) → Q a s → Q' a s)
      → ((e : GoError) (s : S) → R e s → R' e s)
      → Returns Q R r
      → Returns Q' R' r
  Returns-mono f g (returned q) = returned (f _ _ q)
  Returns-mono f g (failed h) = failed (g _ _ h)

  -- On success the value and the state are as promised.
  pub of_done : {a : A} {s : S} → Returns Q R (done a s) → Q a s
  of_done (returned q) = q

  pub of_fail : {e : GoError} {s : S} → Returns Q R (fail e s) → R e s
  of_fail (failed h) = h

  pub not_crash : {s : S} → ¬ Returns Q R (crash s)
  not_crash h = elim h [ ]

  Returns-rewrap :
      {R' : GoError → S → Type 0} {r : Run S A} (wrap : GoError → GoError)
      → ((e : GoError) (s : S) → R e s → R' (wrap e) s)
      → Returns Q R r
      → Returns Q R' (rewrap r wrap)
  Returns-rewrap wrap g (returned q) = returned q
  Returns-rewrap wrap g (failed h) = failed (g _ _ h)

  Returns-within :
      {T : Type 0} {Q' : A → T → Type 0} {R' : GoError → T → Type 0} {r : Run S A} (put : S → T)
      → ((a : A) (s : S) → Q a s → Q' a (put s))
      → ((e : GoError) (s : S) → R e s → R' e (put s))
      → Returns Q R r
      → Returns Q' R' (within put r)
  Returns-within put f g (returned q) = returned (f _ _ q)
  Returns-within put f g (failed h) = failed (g _ _ h)

module _ {S : Type 0} {R : GoError → S → Type 0} where
  pub fail_with_lem :
      (o : Option GoError) (s : S)
      → ((e : GoError) → R e s)
      → Returns (λ _ t. t ≡ s) R (fail_with o s)
  unfolding fail_with
  fail_with_lem none s h = returned refl
  fail_with_lem (some e) s h = failed (h e)

  pub lift_lem :
      {A : Type 0} (r : Result A) (s : S)
      → ((e : GoError) → R e s)
      → Returns (λ a t. (t ≡ s) × (r ≡ ok a)) R (lift r s)
  unfolding lift
  lift_lem (ok a) s h = returned (refl, refl)
  lift_lem (err e) s h = failed (h e)

-- An error that is wrapped, and a call on a part of the state.
module _ {S A : Type 0} {Q : A → S → Type 0} {R R' : GoError → S → Type 0} where
  pub wrapping :
      (m : M S A) (wrap : GoError → GoError) (s : S)
      → ((e : GoError) (t : S) → R e t → R' (wrap e) t)
      → Returns Q R (m s)
      → Returns Q R' (on_error m wrap s)
  unfolding on_error
  wrapping m wrap s g h = Returns-rewrap wrap g h

module _ {S T A : Type 0} {Q : A → T → Type 0} {R : GoError → T → Type 0} {Q' : A → S → Type 0}
    {R' : GoError → S → Type 0} where
  pub zooming :
      (get : S → T) (put : T → S → S) (m : M T A) (s : S)
      → Returns Q R (m (get s))
      → ((a : A) (t : T) → Q a t → Q' a (put t s))
      → ((e : GoError) (t : T) → R e t → R' e (put t s))
      → Returns Q' R' (zoom get put m s)
  unfolding zoom
  zooming get put m s h f g = Returns-within (λ t. put t s) f g h

-- Rules for a first step followed by the rest of a method: one premise for each way it may go.
module _ {S A B : Type 0} {P : A → S → Type 0} {Q : B → S → Type 0} {R : GoError → S → Type 0} where
  Returns-chain :
      {r : Run S A} (f : A → M S B)
      → Returns P R r
      → ((a : A) (s : S) → P a s → Returns Q R (f a s))
      → Returns Q R (chain r f)
  Returns-chain f (returned {a} {s} p) k = k a s p
  Returns-chain f (failed h) k = failed h

  pub after :
      (m : M S A) (f : A → M S B) (s : S)
      → Returns P R (m s)
      → ((a : A) (t : S) → P a t → Returns Q R (f a t))
      → Returns Q R ((m >>= f) s)
  unfolding ◌>>=◌
  after m f s h k = Returns-chain f h k

module _ {S B : Type 0} {P : S → Type 0} {Q : B → S → Type 0} {R : GoError → S → Type 0} where
  pub after_ :
      (m : M S (Unit {0})) (k : M S B) (s : S)
      → Returns (λ _. P) R (m s)
      → ((t : S) → P t → Returns Q R (k t))
      → Returns Q R ((m >> k) s)
  unfolding ◌>>◌
  after_ m k s h g = Returns-chain (λ _. k) h (λ _. g)

module _ {S B : Type 0} {Q : B → S → Type 0} {R : GoError → S → Type 0} where
  pub after_done :
      {A : Type 0} (m : M S A) (f : A → M S B) (s : S) {t : S} {a : A}
      → m s ≡ done a t
      → Returns Q R (f a t)
      → Returns Q R ((m >>= f) s)
  unfolding ◌>>=◌
  after_done m f s h r = rw h r

  pub after_modify :
      (change : S → S) (k : M S B) (s : S)
      → Returns Q R (k (change s))
      → Returns Q R ((modify change >> k) s)
  unfolding ◌>>◌
  after_modify change k s r = r

  pub after_gets :
      {A : Type 0} (get : S → A) (f : A → M S B) (s : S)
      → Returns Q R (f (get s) s)
      → Returns Q R ((gets get >>= f) s)
  unfolding ◌>>=◌
  after_gets get f s r = r

  pub after_reject :
      (test : Bool) (e : GoError) (k : M S B) (s : S)
      → (test ≡ true → R e s)
      → (test ≡ false → Returns Q R (k s))
      → Returns Q R ((reject_if test e >> k) s)
  unfolding ◌>>◌ reject_if
  after_reject true e m s h k = failed (h refl)
  after_reject false e m s h k = k refl

  pub after_lift :
      {A : Type 0} (r : Result A) (f : A → M S B) (s : S)
      → ((e : GoError) → r ≡ err e → R e s)
      → ((a : A) → r ≡ ok a → Returns Q R (f a s))
      → Returns Q R ((lift r >>= f) s)
  unfolding ◌>>=◌ lift
  after_lift (ok a) f s h k = k a refl
  after_lift (err e) f s h k = failed (h e refl)

  pub after_deref :
      {A : Type 0} (o : Option A) (f : A → M S B) (s : S)
      → o ≢ none
      → ((a : A) → o ≡ some a → Returns Q R (f a s))
      → Returns Q R ((deref o >>= f) s)
  unfolding ◌>>=◌ deref
  after_deref none f s h k = absurd (h refl)
  after_deref (some a) f s h k = k a refl

  pub after_fail_with :
      (o : Option GoError) (k : M S B) (s : S)
      → ((e : GoError) → o ≡ some e → R e s)
      → (o ≡ none → Returns Q R (k s))
      → Returns Q R ((fail_with o >> k) s)
  unfolding ◌>>◌ fail_with
  after_fail_with none m s h k = k refl
  after_fail_with (some e) m s h k = failed (h e refl)

pub Result-cases :
    {A : Type 0} (r : Result A) → ((a : A) × (r ≡ ok a)) ⊎ ((e : GoError) × (r ≡ err e))
Result-cases (ok a) = inl (a, refl)
Result-cases (err e) = inr (e, refl)

-- Inversion: what succeeds has parts that do.
module _ {S A B : Type 0} where
  chain-eq-done :
      (r : Run S A) (f : A → M S B) {b : B} {t : S}
      → chain r f ≡ done b t
      → (a : A) × (s : S) × (r ≡ done a s) × (f a s ≡ done b t)
  chain-eq-done (done a s) f h = (a, s, refl, h)
  chain-eq-done (fail e s) f h = cc
  chain-eq-done (crash s) f h = cc

  pub >>=-eq-done :
      (m : M S A) (f : A → M S B) (s : S) {b : B} {t : S}
      → (m >>= f) s ≡ done b t
      → (a : A) × (s' : S) × (m s ≡ done a s') × (f a s' ≡ done b t)
  unfolding ◌>>=◌
  >>=-eq-done m f s h = chain-eq-done (m s) f h

-- Both branches of a test.
pub in_branches :
    {S A : Type 0} {Q : A → S → Type 0} {R : GoError → S → Type 0} (test : Bool) (m n : M S A)
    (s : S)
    → (test ≡ true → Returns Q R (m s))
    → (test ≡ false → Returns Q R (n s))
    → Returns Q R ((if test then m else n) s)
in_branches true m n s f g = f refl
in_branches false m n s f g = g refl

-- A check at the end of a method.
module _ {S : Type 0} {R : GoError → S → Type 0} where
  pub fail_with-none :
      (o : Option GoError) (s : S)
      → ((e : GoError) → R e s)
      → Returns (λ _ t. (t ≡ s) × (o ≡ none)) R (fail_with o s)
  unfolding fail_with
  fail_with-none none s h = returned (refl, refl)
  fail_with-none (some e) s h = failed (h e)

  pub reject_if_lem :
      (test : Bool) (e : GoError) (s : S)
      → (test ≡ true → R e s)
      → Returns (λ _ t. (t ≡ s) × (test ≡ false)) R (reject_if test e s)
  unfolding reject_if
  reject_if_lem true e s h = failed (h refl)
  reject_if_lem false e s h = returned (refl, refl)
