-- ===== src/Run.antt =====
-- A Go method that mutates its receiver and the outside world: from a state to a result, an error
-- or a panic, each with the state that is left behind.
pub mod Rules
pub mod Frame
pub mod Success
use openvino_wallet.Base.{Option, none, some, Bool, true, false}
use openvino_wallet.Errors.{GoError}

pub data Run (S A : Type 0) : Type 0 where
  done : A → S → Run S A
  fail : GoError → S → Run S A
  crash : S → Run S A

abbrev pub M : Type 0 → Type 0 → Type 0
M S A = S → Run S A

-- The rest of a method after a call: `if err != nil { return err }`, and a panic unwinds.
abbrev pub chain : {S A B : Type 0} → Run S A → (A → M S B) → Run S B
chain (done a s) f = f a s
chain (fail e s) f = fail e s
chain (crash s) f = crash s

infixl 5 ◌>>=◌ ◌>>◌
unfoldable pub ◌>>=◌ : {S A B : Type 0} → M S A → (A → M S B) → M S B
◌>>=◌ m f s = chain (m s) f

unfoldable pub ◌>>◌ : {S B : Type 0} → M S (Unit {0}) → M S B → M S B
◌>>◌ m k s = chain (m s) (λ _. k)

abbrev pub give : {S A : Type 0} → A → M S A
give a s = done a s

abbrev pub throw : {S A : Type 0} → GoError → M S A
throw e s = fail e s

-- A nil dereference or an index out of range.
abbrev pub panic : {S A : Type 0} → M S A
panic s = crash s

abbrev pub gets : {S A : Type 0} → (S → A) → M S A
gets f s = done (f s) s

abbrev pub modify : {S : Type 0} → (S → S) → M S (Unit {0})
modify f s = done tt (f s)

-- `if test { return err }`.
unfoldable pub reject_if : {S : Type 0} → Bool → GoError → M S (Unit {0})
reject_if true e = throw e
reject_if false e = give tt

-- `if err != nil { return err }`, of a call that returns only an error.
unfoldable pub fail_with : {S : Type 0} → Option GoError → M S (Unit {0})
fail_with none = give tt
fail_with (some e) = throw e

-- `*p`, and `m[i]` out of range.
unfoldable pub deref : {S A : Type 0} → Option A → M S A
deref none = panic
deref (some a) = give a

-- What a pure Go function returns: a value or an error.
pub data Result (A : Type 0) : Type 0 where
  ok : A → Result A
  err : GoError → Result A

unfoldable pub lift : {S A : Type 0} → Result A → M S A
lift (ok a) = give a
lift (err e) = throw e

-- `if err != nil { return f(err) }`.
abbrev pub rewrap : {S A : Type 0} → Run S A → (GoError → GoError) → Run S A
rewrap (done a s) f = done a s
rewrap (fail e s) f = fail (f e) s
rewrap (crash s) f = crash s

unfoldable pub on_error : {S A : Type 0} → M S A → (GoError → GoError) → M S A
on_error m f s = rewrap (m s) f

-- A call on a part of the state.
abbrev pub within : {S T A : Type 0} → (T → S) → Run T A → Run S A
within put (done a t) = done a (put t)
within put (fail e t) = fail e (put t)
within put (crash t) = crash (put t)

unfoldable pub zoom : {S T A : Type 0} → (S → T) → (T → S → S) → M T A → M S A
zoom get put m s = within (λ t. put t s) (m (get s))

-- The state that a run leaves behind.
abbrev pub final : {S A : Type 0} → Run S A → S
final (done a s) = s
final (fail e s) = s
final (crash s) = s

-- Named on an `unfolding` line, it opens the steps above.
unfoldable pub steps : Unit {0}
unfolding ◌>>=◌ ◌>>◌ fail_with reject_if deref lift on_error zoom
steps = tt
