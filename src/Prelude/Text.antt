-- ===== src/Prelude/Text.antt =====
-- Native texts: `==` on them as `str_eq`, and the laws of that test.
use Prim.Native.String.{String}
use mathlib.Core.Path.{◌≡◌}
use mathlib.Core.Logic.{◌≢◌}
use mathlib.Core.Bool.{Bool, true, false}
use native.Mathlib.Omega.{arith}
pub use text.Mathlib.Text.{◌==◌ as str_eq}
pub use text.Mathlib.TextEquality.{eq_iff}
pub use text.Mathlib.TextPositions.{eq_refl}

abbrev pub is_empty : String → Bool
is_empty s = str_eq s ""

pub str_eq-of_ne : (s t : String) → s ≢ t → str_eq s t ≡ false
str_eq-of_ne s t h = ground (arith, eq_iff s t)

pub eq_of-str_eq : (s t : String) → str_eq s t ≡ true → s ≡ t
eq_of-str_eq s t h = (eq_iff s t).0 h

pub str_eq-sym : (s t : String) → str_eq s t ≡ str_eq t s
str_eq-sym s t = ground (arith, eq_iff s t, eq_iff t s)
