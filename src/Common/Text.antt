-- ===== src/Common/Text.antt =====
-- Texts as keys of a map.
use Prim.Native.String.{String}
use text.Mathlib.Text.{◌==◌}
use text.Mathlib.TextEquality.{eq_iff}
use mathlib.Core.Path.{◌≡◌, refl}
use mathlib.Core.Bool.{Bool, true, false}
use native.Mathlib.Omega.{arith}

decide_by : (a b : String) (test : Bool) → ((a == b) ≡ test) → Dec (a ≡ b)
decide_by a b true h = yes ((eq_iff a b).0 h)
decide_by a b false h = no (λ p. ground (arith, eq_iff a b, p, h))

unfoldable pub String_discrete : Discrete String
unfolding decide_by
String_discrete a b = decide_by a b (a == b) refl
