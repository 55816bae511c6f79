-- ===== src/Python/Action/Laws.antt =====
-- A chain of actions that returns went through each of its parts.
use sapl_python.Prelude.{◌≡◌, refl}
use sapl_python.Python.Action.{Result, ok, raised, Action, ◌>>=◌, continue}

module _ {ℓ} {W A B : Type ℓ} where
  pub continue-eq-ok :
      (r : Result A) (f : A → Action W B) (w : W) {b : B} {w'' : W}
      → continue r f w ≡ (ok b, w'')
      → (a : A) × (r ≡ ok a) × (f a w ≡ (ok b, w''))
  continue-eq-ok (ok a) f w h = (a, refl, h)
  continue-eq-ok (raised e) f w h = cc

  pub >>=-eq-ok :
      (m : Action W A) (f : A → Action W B) (w : W) {b : B} {w'' : W}
      → (m >>= f) w ≡ (ok b, w'')
      → (a : A) × ((m w).0 ≡ ok a) × (f a (m w).1 ≡ (ok b, w''))
  >>=-eq-ok m f w h = continue-eq-ok (m w).0 f (m w).1 h
