-- ===== src/Run/Frame.antt =====
-- What a method leaves as it was: `Keeps rel m` says that every run of `m`, a failing or panicking
-- one too, ends in a state that `rel` relates to the first. It holds of a method where it holds of
-- its steps.
use openvino_wallet.Base.{Bool, true, false, Option, none, some, ◌≡◌, refl, if◌then◌else◌}
use openvino_wallet.Errors.{GoError}
use openvino_wallet.Run.{
  Run, done, fail, crash, M, chain, ◌>>=◌, ◌>>◌, gets, reject_if, fail_with, deref, Result, ok, err,
  lift, rewrap, on_error, final, throw, give, zoom, within,
}

unfoldable pub Keeps : {S A : Type 0} → (S → S → Type 0) → M S A → Type 0
Keeps {S} rel m = (s : S) → rel s (final (m s))

-- A relation that a sequence of steps carries along.
pub record Frame {S : Type 0} (rel : S → S → Type 0) : Type 0 where
  pub same : (s : S) → rel s s
  pub both : (s t u : S) → rel s t → rel t u → rel s u

final-rewrap : {S A : Type 0} (r : Run S A) (f : GoError → GoError) → final (rewrap r f) ≡ final r
final-rewrap (done a s) f = refl
final-rewrap (fail e s) f = refl
final-rewrap (crash s) f = refl

pub Keeps-on_error :
    {S A : Type 0} (rel : S → S → Type 0) (m : M S A) (f : GoError → GoError)
    → Keeps rel m
    → Keeps rel (on_error m f)
unfolding on_error Keeps
Keeps-on_error rel m f h s = rw (final-rewrap (m s) f) (h s)

module _ {S : Type 0} (rel : S → S → Type 0) (frame : Frame rel) where
  pub Keeps-give : {A : Type 0} (a : A) → Keeps rel (give a)
  unfolding Keeps
  Keeps-give a s = frame.same s

  pub Keeps-throw : (A : Type 0) (e : GoError) → Keeps rel (throw {A = A} e)
  unfolding Keeps
  Keeps-throw A e s = frame.same s

  pub Keeps-gets : {A : Type 0} (f : S → A) → Keeps rel (gets f)
  unfolding Keeps
  Keeps-gets f s = frame.same s

  pub Keeps-lift : {A : Type 0} (r : Result A) → Keeps rel (lift r)
  unfolding lift Keeps
  Keeps-lift (ok a) s = frame.same s
  Keeps-lift (err e) s = frame.same s

  pub Keeps-deref : {A : Type 0} (o : Option A) → Keeps rel (deref o)
  unfolding deref Keeps
  Keeps-deref none s = frame.same s
  Keeps-deref (some a) s = frame.same s

  pub Keeps-reject_if : (b : Bool) (e : GoError) → Keeps rel (reject_if b e)
  unfolding reject_if Keeps
  Keeps-reject_if true e s = frame.same s
  Keeps-reject_if false e s = frame.same s

  pub Keeps-fail_with : (o : Option GoError) → Keeps rel (fail_with o)
  unfolding fail_with Keeps
  Keeps-fail_with none s = frame.same s
  Keeps-fail_with (some e) s = frame.same s

  keeps-chain :
      {A B : Type 0} (s : S) (r : Run S A) (f : A → M S B)
      → rel s (final r)
      → ((a : A) → Keeps rel (f a))
      → rel s (final (chain r f))
  unfolding Keeps
  keeps-chain s (done a t) f h k = frame.both s t (final (f a t)) h (k a t)
  keeps-chain s (fail e t) f h k = h
  keeps-chain s (crash t) f h k = h

  pub Keeps->>= :
      {A B : Type 0} (m : M S A) (f : A → M S B)
      → Keeps rel m
      → ((a : A) → Keeps rel (f a))
      → Keeps rel (m >>= f)
  unfolding ◌>>=◌ Keeps
  Keeps->>= m f h k s = keeps-chain s (m s) f (h s) k

  pub Keeps->> :
      {B : Type 0} (m : M S (Unit {0})) (k : M S B) → Keeps rel m → Keeps rel k → Keeps rel (m >> k)
  unfolding ◌>>◌ Keeps
  Keeps->> m k h g s = keeps-chain s (m s) (λ _. k) (h s) (λ _. g)

  pub Keeps-if :
      {A : Type 0} (test : Bool) (m n : M S A)
      → Keeps rel m
      → Keeps rel n
      → Keeps rel (if test then m else n)
  Keeps-if true m n h k = h
  Keeps-if false m n h k = k

-- Steps that keep different relations.
module _ {S A B : Type 0} (P Q R : S → S → Type 0) (into : (s t : S) → P s t → R s t)
    (join : (s t u : S) → P s t → Q t u → R s u) where
  then-chain :
      (s : S) (r : Run S A) (f : A → M S B)
      → P s (final r)
      → ((a : A) → Keeps Q (f a))
      → R s (final (chain r f))
  unfolding Keeps
  then-chain s (done a t) f h k = join s t _ h (k a t)
  then-chain s (fail e t) f h k = into s t h
  then-chain s (crash t) f h k = into s t h

  pub Keeps-then :
      (m : M S A) (f : A → M S B) → Keeps P m → ((a : A) → Keeps Q (f a)) → Keeps R (m >>= f)
  unfolding ◌>>=◌ Keeps
  Keeps-then m f h k s = then-chain s (m s) f (h s) k

-- The same, of a step without a value.
module _ {S B : Type 0} (P Q R : S → S → Type 0) (into : (s t : S) → P s t → R s t)
    (join : (s t u : S) → P s t → Q t u → R s u) where
  pub Keeps-then_ : (m : M S (Unit {0})) (k : M S B) → Keeps P m → Keeps Q k → Keeps R (m >> k)
  unfolding ◌>>◌ Keeps
  Keeps-then_ m k h g s = then-chain P Q R into join s (m s) (λ _. k) (h s) (λ _. g)

pub final-zoom :
    {S T A : Type 0} (get : S → T) (put : T → S → S) (m : M T A) (s : S)
    → final (zoom get put m s) ≡ put (final (m (get s))) s
unfolding zoom
final-zoom {S} {T} {A} get put m s = go (m (get s))
  where
    go : (r : Run T A) → final (within (λ t. put t s) r) ≡ put (final r) s
    go (done a t) = refl
    go (fail e t) = refl
    go (crash t) = refl

pub final-fail_with : {S : Type 0} (o : Option GoError) (s : S) → final (fail_with o s) ≡ s
unfolding fail_with
final-fail_with none s = refl
final-fail_with (some e) s = refl

-- A last step that only returns.
pub final->>=-give :
    {S A B : Type 0} (m : M S A) (f : A → B) (s : S)
    → final ((m >>= λ a. give (f a)) s) ≡ final (m s)
unfolding ◌>>=◌
final->>=-give {S} {A} {B} m f s = go (m s)
  where
    go : (r : Run S A) → final (chain r (λ a. give (f a))) ≡ final r
    go (done a t) = refl
    go (fail e t) = refl
    go (crash t) = refl
