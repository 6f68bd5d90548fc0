-- ===== src/Store/Monad.antt =====
-- A call on the store: a result, and the store that it leaves, after an error too.
use inoxset.Prelude.{Bool, if◌then◌else◌}
use inoxset.Error.{InoxSetError, Result, ok, err, panic}

abbrev pub Action : Type 0 → Type 0 → Type 0
Action S A = S → Result A × S

module _ {S : Type 0} where
  abbrev pub pure : {A : Type 0} → A → Action S A
  pure a s = (ok a, s)

  abbrev pub lift : {A : Type 0} → Result A → Action S A
  lift r s = (r, s)

  abbrev pub gets : {A : Type 0} → (S → A) → Action S A
  gets f s = (ok (f s), s)

  abbrev pub modify : (S → S) → Action S (Unit {0})
  modify f s = (ok tt, f s)

  abbrev pub raise : {A : Type 0} → InoxSetError → Action S A
  raise e s = (err e, s)

  abbrev pub next : {A B : Type 0} → (A → Action S B) → Result A → Action S B
  next f (ok a) s = f a s
  next f (err e) s = (err e, s)
  next f panic s = (panic, s)

infixl 5 ◌>>=◌ ◌>>◌
abbrev pub ◌>>=◌ : {S A B : Type 0} → Action S A → (A → Action S B) → Action S B
◌>>=◌ m f s = let (r, t) = m s in next f r t

abbrev pub ◌>>◌ : {S B : Type 0} → Action S (Unit {0}) → Action S B → Action S B
m >> k = m >>= λ _. k

abbrev pub when : {S : Type 0} → Bool → Action S (Unit {0}) → Action S (Unit {0})
when c m = if c then m else pure tt
