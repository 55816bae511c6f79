-- ===== src/Python/Action.antt =====
-- Python code that acts on the world outside and may raise. What was done before a raise stays
-- done, so the world comes back beside the exception too.

pub mod Laws
use sapl_python.Python.Exception.{Exc}

pub data Result {ℓ} (A : Type ℓ) : Type ℓ where
  ok : A → Result A
  raised : Exc → Result A

abbrev pub Action {ℓ} : Type ℓ → Type ℓ → Type ℓ
Action W A = W → Result A × W

module _ {ℓ} {W A : Type ℓ} where
  abbrev pub pure : A → Action W A
  pure a w = (ok a, w)

  abbrev pub raise : Exc → Action W A
  raise e w = (raised e, w)

module _ {ℓ} {W A B : Type ℓ} where
  abbrev pub continue : Result A → (A → Action W B) → Action W B
  continue (ok a) f w = f a w
  continue (raised e) f w = (raised e, w)

  infixl 10 ◌>>=◌ ◌>>◌
  abbrev pub ◌>>=◌ : Action W A → (A → Action W B) → Action W B
  ◌>>=◌ m f w = let (r, w') = m w in continue r f w'

  abbrev pub ◌>>◌ : Action W A → Action W B → Action W B
  m >> n = m >>= λ _. n

  -- `try: m except Exception as e: handler(e)` with `k` behind a normal end.
  abbrev pub resume : Result A → (A → Action W B) → (Exc → Action W B) → Action W B
  resume (ok a) k h w = k a w
  resume (raised e) k h w = h e w

-- A step that does not act on the world, and what follows it.
module _ {ℓ κ} {A : Type ℓ} {B : Type κ} where
  abbrev pub on_ok : Result A → (A → Result B) → Result B
  on_ok (ok a) f = f a
  on_ok (raised e) f = raised e
