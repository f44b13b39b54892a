-- ===== src/Content/Action.antt =====
-- What an operation of repo/content does: it returns a value or an error, and the state stays changed
-- after an error too.
use mathlib.Core.Path.{subst}
use kopia.Prelude.{same_ok, err_not_ok, ◌≡◌, refl, Result, ok, err, Option, none, some}

abbrev pub Act : Type 0 → Type 0 → Type 0 → Type 0
Act S E A = S → Result E A × S

-- an error, or nothing
abbrev pub returned : {E : Type 0} → Option E → Result E (Unit {0})
returned none = ok tt
returned (some e) = err e

-- a value, or `none` after an error
abbrev pub value_of : {A E : Type 0} → Result E A → Option A
value_of (ok a) = some a
value_of (err e) = none

module _ {S E : Type 0} where
  abbrev pub pure : {A : Type 0} → A → Act S E A
  pure a s = (ok a, s)

  abbrev pub raise : {A : Type 0} → E → Act S E A
  raise e s = (err e, s)

  abbrev pub gets : {A : Type 0} → (S → A) → Act S E A
  gets f s = (ok (f s), s)

  abbrev pub modify : (S → S) → Act S E (Unit {0})
  modify f s = (ok tt, f s)

  abbrev pub or_raise : {A : Type 0} → Result E A → Act S E A
  or_raise r s = (r, s)

  -- a state is left as it is
  abbrev pub skip : Act S E (Unit {0})
  skip s = (ok tt, s)

  abbrev pub bind : {A B : Type 0} → Result E A × S → (A → Act S E B) → Result E B × S
  bind (ok a, s) f = f a s
  bind (err e, s) f = (err e, s)

  infixl 5 ◌>>=◌ ◌>>◌
  abbrev pub ◌>>=◌ : {A B : Type 0} → Act S E A → (A → Act S E B) → Act S E B
  ◌>>=◌ m f s = bind (m s) f

  abbrev pub ◌>>◌ : {B : Type 0} → Act S E (Unit {0}) → Act S E B → Act S E B
  m >> k = m >>= λ _. k

  abbrev pub attempt : {A : Type 0} → Act S E A → Act S E (Option A)
  attempt m s = let (r, s1) = m s in (ok (value_of r), s1)

  -- How an operation ends: with what is promised, or with an error of a kind that is expected.
  module _ (Faulty : E → Type 0) where
    pub data Outcome {A : Type 0} (P : A → S → Type 0) : Result E A × S → Type 0 where
      returns : (a : A) (s : S) → P a s → Outcome P (ok a, s)
      fails : (e : E) (s : S) → Faulty e → Outcome P (err e, s)

    pub Outcome-bind :
        {A B : Type 0} {P : A → S → Type 0} {Q : B → S → Type 0} {x : Result E A × S}
        {f : A → Act S E B}
        → Outcome P x
        → ((a : A) (s : S) → P a s → Outcome Q (f a s))
        → Outcome Q (bind x f)
    Outcome-bind (returns a s p) k = k a s p
    Outcome-bind (fails e s p) k = fails e s p

    pub Outcome-imp :
        {A : Type 0} {P Q : A → S → Type 0} {x : Result E A × S}
        → ((a : A) (s : S) → P a s → Q a s)
        → Outcome P x
        → Outcome Q x
    Outcome-imp k (returns a s p) = returns a s (k a s p)
    Outcome-imp k (fails e s p) = fails e s p

    -- what an operation that returned a value promised
    pub promised :
        {A : Type 0} {P : A → S → Type 0} (x : Result E A × S) (a : A)
        → Outcome P x
        → x.0 ≡ ok a
        → P a x.1
    promised {P = P} x a (returns b s p) e = subst (λ c. P c s) (same_ok b a e) p
    promised x a (fails e s p) d = absurd (err_not_ok e a d)

    -- what a returned value implies besides
    pub Outcome-when :
        {A : Type 0} {P : A → S → Type 0} {R : S → Type 0} {x : Result E A × S}
        → Outcome P x
        → ((a : A) → x.0 ≡ ok a → P a x.1 → R x.1)
        → Outcome (λ a s. P a s × R s) x
    Outcome-when (returns a s p) r = returns a s (p, r a refl p)
    Outcome-when (fails e s p) r = fails e s p

    -- two promises of one operation
    pub Outcome-both :
        {A : Type 0} {P Q : A → S → Type 0} {x : Result E A × S}
        → Outcome P x
        → Outcome Q x
        → Outcome (λ a s. P a s × Q a s) x
    Outcome-both {P = P} {Q = Q} {x = x} (returns a s p) q =
        returns a s (p, promised {P = Q} (ok a, s) a q refl)
    Outcome-both (fails e s p) q = fails e s p
