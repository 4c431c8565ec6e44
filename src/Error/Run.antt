-- ===== src/Error/Run.antt =====
-- Fallible methods on a mutable state: the state that is left, also with an error or a panic, and the
-- result.
use mythril.Prelude.{◌≡◌, refl}
use mythril.Error.{Error, Result, ok, err, panic}

abbrev pub Run : Type 0 → Type 0 → Type 0
Run S A = S → S × Result A

module _ {S : Type 0} where
  abbrev pub continue : {A B : Type 0} → (A → Run S B) → S × Result A → S × Result B
  continue f (s, ok a) = f a s
  continue f (s, err e) = (s, err e)
  continue f (s, panic) = (s, panic)

  infixl 5 ◌>>=◌ ◌>>◌
  abbrev pub ◌>>=◌ : {A B : Type 0} → Run S A → (A → Run S B) → Run S B
  ◌>>=◌ a f s = continue f (a s)

  abbrev pub ◌>>◌ : {B : Type 0} → Run S (Unit {0}) → Run S B → Run S B
  ◌>>◌ a b s = continue (λ done. b) (a s)

  abbrev pub done : {A : Type 0} → A → Run S A
  done a s = (s, ok a)

  -- A result that leaves the state alone.
  abbrev pub lift : {A : Type 0} → Result A → Run S A
  lift r s = (s, r)

  abbrev pub modify : (S → S) → Run S (Unit {0})
  modify f s = (f s, ok tt)

  -- A read of the state.
  abbrev pub gets : {A : Type 0} → (S → A) → Run S A
  gets f s = (s, ok (f s))

-- A step whose result is known.
module _ {S A B : Type 0} (f : A → Run S B) where
  pub continue-ok : (r : S × Result A) (a : A) → r.1 ≡ ok a → continue f r ≡ f a (r.0)
  continue-ok (s, ok b) a e = cc
  continue-ok (s, err b) a e = cc
  continue-ok (s, panic) a e = cc

  pub continue-err : (r : S × Result A) (e : Error) → r.1 ≡ err e → continue f r ≡ (r.0, err e)
  continue-err (s, ok b) e h = cc
  continue-err (s, err e') e h = cc
  continue-err (s, panic) e h = cc

  pub continue-panic : (r : S × Result A) → r.1 ≡ panic → continue f r ≡ (r.0, panic)
  continue-panic (s, ok b) e = cc
  continue-panic (s, err b) e = cc
  continue-panic (s, panic) e = refl

-- A method of a part of the state.
abbrev pub zoom : {S T A : Type 0} → (S → T) → (T → S → S) → Run T A → Run S A
zoom get put run s = let (t, r) = run (get s) in (put t s, r)
