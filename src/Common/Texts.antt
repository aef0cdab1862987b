-- ===== src/Common/Texts.antt =====
-- The texts that stand in the source.
use pulse_co_ap.Common.{ℕ, List, [], ◌∷◌}
use Prim.Native.String.{String}
use Prim.Native.Char.{code}

-- The characters of a literal.
abbrev pub chars : String → List ℕ
chars String.[] = []
chars (String.◌∷◌ c s) = code c ∷ chars s
