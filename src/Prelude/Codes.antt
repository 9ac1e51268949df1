-- ===== src/Prelude/Codes.antt =====
-- A text literal as the list of its code points.
use Prim.Native.Nat.{ℕ}
use Prim.Native.Char.{code}
use Prim.Native.String.{String, [], ◌∷◌}
use mathlib.Core.List as L

abbrev pub codes : String → L.List ℕ
codes [] = L.[]
codes (c ∷ s) = L.◌∷◌ (code c) (codes s)
