-- ===== src/ContentFilter/Tests.antt =====
-- Blackened texts, and the theorems at them.
mod Paths
use Prim.Native.String.{◌++◌}
use sapl_python.Prelude.{◌≡◌, refl, arith}
use sapl_python.Python.Value.{Fields, end, field, str, int, pos, negsuc}
use sapl_python.Python.Action.{ok, raised}
use sapl_python.ContentFilter.Blacken.{blacken_text, blacken_value}
use sapl_python.ContentFilter.Path.{denial}
use sapl_python.ContentFilter.Blacken.Hiding.{blacken_value-hides}

abbrev ends_only : Fields
ends_only =
    field "replacement" (str "X")
      (field "discloseLeft" (int (pos 1)) (field "discloseRight" (int (pos 2)) end))

abbrev fixed_length : Fields
fixed_length = field "length" (int (pos 3)) ends_only

blackened :
    (blacken_value (str "secret") ends_only ≡ ok "sXXXet")
    × (blacken_value (str "secret") fixed_length ≡ ok "sXXXet")
    × (blacken_value (str "set") fixed_length ≡ ok "set")
    × (blacken_value (str "secret") (field "discloseLeft" (int (negsuc 0)) end)
        ≡ raised (denial "An action's disclose count must not be negative."))
unfolding blacken_value blacken_text
blackened = (refl, refl, refl, refl)

blacken_value-hides_example :
    blacken_value (str ("s" ++ ("ecr" ++ "et"))) ends_only
    ≡ blacken_value (str ("s" ++ ("onn" ++ "et"))) ends_only
blacken_value-hides_example =
    blacken_value-hides ends_only "s" "et" "ecr" "onn" refl refl (omega arith) refl
