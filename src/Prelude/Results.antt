-- ===== src/Prelude/Results.antt =====
-- Results of fallible code, and `for` loops on fuel.
use Prim.Native.Nat.{ℕ, zero, suc, ◌<◌}
use mathlib.Core.Logic.{◌≢◌}
use mathlib.Core.Path.{◌≡◌, refl, subst}
use native.Mathlib.Omega.{arith}
use mathlib.Core.Bool.{Bool, true, false}
use go_sieve.Prelude.Tests.{if◌then◌else◌}

-- `out_of_fuel` belongs to the model alone.
pub data Result (E : Type 0) (A : Type 0) : Type 0 where
  ok : A → Result E A
  err : E → Result E A
  out_of_fuel : Result E A

infixl 5 ◌>>=◌
abbrev pub ◌>>=◌ : {E A B : Type 0} → Result E A → (A → Result E B) → Result E B
ok a >>= f = f a
err e >>= f = err e
out_of_fuel >>= f = out_of_fuel

-- The run kept within its fuel, and `P` holds of its value if it has one.
abbrev pub Ends : {E A : Type 0} → (A → Type 0) → Result E A → Type 0
Ends P (ok a) = P a
Ends P (err e) = Unit
Ends P out_of_fuel = ⊥

module _ {E A : Type 0} where
  -- The second run ends with `Q` behind each value of the first.
  pub Ends-bind :
      {B : Type 0} (P : A → Type 0) (Q : B → Type 0) (run : Result E A) (go : A → Result E B)
      → Ends P run
      → ((value : A) → P value → Ends Q (go value))
      → Ends Q (run >>= go)
  Ends-bind P Q (ok value) go first second = second value first
  Ends-bind P Q (err x) go first second = tt
  Ends-bind P Q out_of_fuel go first second = absurd first

  pub Ends-weaken :
      (P Q : A → Type 0) (r : Result E A) → Ends P r → ((a : A) → P a → Q a) → Ends Q r
  Ends-weaken P Q (ok a) h k = k a h
  Ends-weaken P Q (err e) h k = tt
  Ends-weaken P Q out_of_fuel h k = h

  pub Ends-ok : (P : A → Type 0) (r : Result E A) {a : A} → Ends P r → r ≡ ok a → P a
  Ends-ok P (ok b) h e = subst P (cc) h
  Ends-ok P (err x) h e = cc
  Ends-ok P out_of_fuel h e = cc

  pub Ends-ne-out_of_fuel : (P : A → Type 0) (r : Result E A) → Ends P r → r ≢ out_of_fuel
  Ends-ne-out_of_fuel P (ok a) h e = cc
  Ends-ne-out_of_fuel P (err x) h e = cc
  Ends-ne-out_of_fuel P out_of_fuel h e = h

  pub Ends-if :
      (P : A → Type 0) (b : Bool) (x y : Result E A)
      → (b ≡ true → Ends P x)
      → (b ≡ false → Ends P y)
      → Ends P (if b then x else y)
  Ends-if P true x y hx hy = hx refl
  Ends-if P false x y hx hy = hy refl

-- `P` holds of the value, if the run has one.
abbrev pub IfOk : {E A : Type 0} → (A → Type 0) → Result E A → Type 0
IfOk P (ok a) = P a
IfOk P (err e) = Unit
IfOk P out_of_fuel = Unit

module _ {E A : Type 0} where
  pub IfOk-bind :
      {B : Type 0} (P : A → Type 0) (Q : B → Type 0) (r : Result E A) (f : A → Result E B)
      → IfOk P r
      → ((a : A) → P a → IfOk Q (f a))
      → IfOk Q (r >>= f)
  IfOk-bind P Q (ok a) f h k = k a h
  IfOk-bind P Q (err e) f h k = tt
  IfOk-bind P Q out_of_fuel f h k = tt

  pub IfOk-if :
      (P : A → Type 0) (b : Bool) (x y : Result E A)
      → (b ≡ true → IfOk P x)
      → (b ≡ false → IfOk P y)
      → IfOk P (if b then x else y)
  IfOk-if P true x y hx hy = hx refl
  IfOk-if P false x y hx hy = hy refl

  pub IfOk-ok : (P : A → Type 0) (r : Result E A) {a : A} → IfOk P r → r ≡ ok a → P a
  IfOk-ok P (ok b) h e = subst P (cc) h
  IfOk-ok P (err x) h e = cc
  IfOk-ok P out_of_fuel h e = cc

  pub IfOk-weaken :
      (P Q : A → Type 0) (r : Result E A) → IfOk P r → ((a : A) → P a → Q a) → IfOk Q r
  IfOk-weaken P Q (ok a) h k = k a h
  IfOk-weaken P Q (err e) h k = tt
  IfOk-weaken P Q out_of_fuel h k = tt

  pub IfOk_lem : (r : Result E A) → IfOk (λ _. Unit) r
  IfOk_lem (ok a) = tt
  IfOk_lem (err e) = tt
  IfOk_lem out_of_fuel = tt

-- One round of a loop goes on with new values of the loop's variables, or leaves the loop.
pub data Flow (S A : Type 0) : Type 0 where
  next : S → Flow S A
  done : A → Flow S A

module _ {S A : Type 0} where
  -- Where one round leads, seen from the values before it.
  abbrev pub Round : (S → Type 0) → (S → ℕ) → (A → Type 0) → S → Flow S A → Type 0
  Round I measure Q s (next s') = I s' × (measure s' < measure s)
  Round I measure Q s (done a) = Q a

module _ {E S A : Type 0} where
  abbrev pub after : (S → Result E A) → Flow S A → Result E A
  after k (next s) = k s
  after k (done a) = ok a

  unfoldable pub loop : (S → Result E (Flow S A)) → ℕ → S → Result E A
  loop body zero s = out_of_fuel
  loop body (suc f) s = body s >>= after (loop body f)

  Ends-after :
      (I : S → Type 0) (measure : S → ℕ) (Q : A → Type 0) (s : S) (k : S → Result E A)
      → ((s' : S) → I s' → measure s' < measure s → Ends Q (k s'))
      → (w : Flow S A) → Round I measure Q s w
      → Ends Q (after k w)
  Ends-after I measure Q s k h (next s') r = h s' r.0 r.1
  Ends-after I measure Q s k h (done a) r = r

  -- The rule for loops: an invariant, and a measure below the fuel that every round lowers.
  pub Ends-loop :
      (I : S → Type 0) (measure : S → ℕ) (Q : A → Type 0) (body : S → Result E (Flow S A))
      → ((s : S) → I s → Ends (Round I measure Q s) (body s))
      → (f : ℕ) (s : S) → measure s < f
      → I s
      → Ends Q (loop body f s)
  unfolding loop
  Ends-loop I measure Q body keep zero s m h = absurd (omega arith)
  Ends-loop I measure Q body keep (suc f) s m h =
      Ends-bind (Round I measure Q s) Q (body s) (after (loop body f)) (keep s h) (
        Ends-after I measure Q s (loop body f)
          λ s' i l. Ends-loop I measure Q body keep f s' (omega arith) i)

  -- One round, unrolled.
  pub loop-next :
      (body : S → Result E (Flow S A)) (f : ℕ) (s s' : S)
      → body s ≡ ok (next s')
      → loop body (suc f) s ≡ loop body f s'
  unfolding loop
  loop-next body f s s' e = rw e

-- The same as a family, whose rules find the values by the run.
pub data Yields {E A : Type 0} (P : A → Type 0) : Result E A → Type 0 where
  yields : {a : A} → P a → Yields P (ok a)
  fails : {e : E} → Yields P (err e)
  stops : Yields P out_of_fuel

module _ {E A : Type 0} where
  pub Yields-bind :
      {B : Type 0} {P : A → Type 0} {Q : B → Type 0} {r : Result E A} {f : A → Result E B}
      → Yields P r
      → ((a : A) → P a → Yields Q (f a))
      → Yields Q (r >>= f)
  Yields-bind (yields h) k = k _ h
  Yields-bind fails k = fails
  Yields-bind stops k = stops

  pub Yields-if :
      {P : A → Type 0} (b : Bool) {x y : Result E A}
      → (b ≡ true → Yields P x)
      → (b ≡ false → Yields P y)
      → Yields P (if b then x else y)
  Yields-if true hx hy = hx refl
  Yields-if false hx hy = hy refl

  pub Yields_lem : (r : Result E A) → Yields (λ _. Unit) r
  Yields_lem (ok a) = yields tt
  Yields_lem (err e) = fails
  Yields_lem out_of_fuel = stops

  -- A step of which nothing is known.
  pub Yields-any :
      {B : Type 0} {Q : B → Type 0} (r : Result E A) {f : A → Result E B}
      → ((a : A) → Yields Q (f a))
      → Yields Q (r >>= f)
  Yields-any (ok a) k = k a
  Yields-any (err e) k = fails
  Yields-any out_of_fuel k = stops

  pub Yields-weaken :
      {P Q : A → Type 0} {r : Result E A} → ((a : A) → P a → Q a) → Yields P r → Yields Q r
  Yields-weaken k (yields h) = yields (k _ h)
  Yields-weaken k fails = fails
  Yields-weaken k stops = stops

  pub Yields-ok : {P : A → Type 0} {r : Result E A} {a : A} → Yields P r → r ≡ ok a → P a
  Yields-ok {P} (yields h) e = subst P (cc) h
  Yields-ok fails e = cc
  Yields-ok stops e = cc
