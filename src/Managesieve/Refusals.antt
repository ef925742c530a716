-- ===== src/Managesieve/Refusals.antt =====
-- On the checks in the operations of managesieve/server/memory.go.
use go_sieve.Managesieve.Memory.{Refusal, unless, refuse, find, loaded}
use go_sieve.Prelude.{◌≡◌, refl, Bool, true, false, Option, none, some, Bytes, Result, ◌>>=◌, IfOk}

module _ {A : Type 0} (P : A → Type 0) where
  pub IfOk-unless :
      (o : Option Refusal) (k : Result Refusal A) → (o ≡ none → IfOk P k) → IfOk P (unless o k)
  IfOk-unless none k h = h refl
  IfOk-unless (some x) k h = tt

  pub IfOk-refuse :
      (b : Bool) (x : Refusal) (k : Result Refusal A)
      → (b ≡ false → IfOk P k)
      → IfOk P (refuse b x k)
  IfOk-refuse true x k h = tt
  IfOk-refuse false x k h = h refl

  pub IfOk-loaded :
      (o : Option Bytes) (k : Result Refusal A) → (o ≡ none → IfOk P k) → IfOk P (loaded o k)
  IfOk-loaded none k h = h refl
  IfOk-loaded (some t) k h = tt

  pub IfOk-find :
      (o : Option Bytes) (k : Bytes → Result Refusal A)
      → ((v : Bytes) → o ≡ some v → IfOk P (k v))
      → IfOk P (find o >>= k)
  IfOk-find none k h = tt
  IfOk-find (some v) k h = h v refl
