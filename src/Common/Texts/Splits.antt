-- ===== src/Common/Texts/Splits.antt =====
-- Texts joined and split again.
use Prim.Native.Nat.{ℕ}
use Prim.Native.Char.{Char, code}
use Prim.Native.String.{String, ◌++◌}
use mathlib.Core.Path.{◌≡◌, refl}
use mathlib.Core.Bool.{false}
use mathlib.Core.List.{[], ◌∷◌}
use native.Mathlib.Omega.{arith}
use text.Mathlib.TextLemmas.{nil-append, cons-append}
use voxellink_monitor.Common.Texts.{split_on, has_char}

pub split_on-none : (sep : ℕ) (s : String) → has_char sep s ≡ false → split_on sep s ≡ s ∷ []
unfolding split_on has_char
split_on-none sep String.[] h = refl
split_on-none sep (String.◌∷◌ c s) h = ground (arith, split_on-none sep s)

-- A separator between two parts that do not have it.
pub split_on-pair :
    (c : Char) (s t : String)
    → has_char (code c) s ≡ false
    → has_char (code c) t ≡ false
    → split_on (code c) (s ++ String.◌∷◌ c t) ≡ s ∷ t ∷ []
unfolding split_on has_char
split_on-pair c String.[] t h k = rw (nil-append, split_on-none (code c) t k) (ground arith)
split_on-pair c (String.◌∷◌ d s) t h k =
    rw (cons-append d s (String.◌∷◌ c t)) (ground (arith, split_on-pair c s t))
