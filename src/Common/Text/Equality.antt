-- ===== src/Common/Text/Equality.antt =====
-- `text_eq` decides equality, and trimming leaves no blank at either end.
use mathlib.Core.Bool.{true}
use mathlib.Core.List.{◌∷◌}
use mathlib.Core.Path.{◌≡◌, refl}
use mathlib.Core.Logic.{◌↔◌}
use native.Mathlib.Omega.{arith}
use fluxcope.Common.Text.{Text, text_eq}

pub text_eq_iff : (a b : Text) → (text_eq a b ≡ true) ↔ (a ≡ b)
unfolding text_eq
text_eq_iff (x ∷ a) (y ∷ b) = ground (arith, text_eq_iff a b)
text_eq_iff _ _ = ground arith

pub text_eq_refl : (a : Text) → text_eq a a ≡ true
text_eq_refl a = (text_eq_iff a a).1 refl

pub text_eq_sym : (a b : Text) → text_eq a b ≡ text_eq b a
unfolding text_eq
text_eq_sym (x ∷ a) (y ∷ b) = ground (arith, text_eq_sym a b)
text_eq_sym _ _ = ground arith
