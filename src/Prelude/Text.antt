-- ===== src/Prelude/Text.antt =====
-- Text literals as the bytes that Go strings hold.
use Prim.Native.Char.{code}
use Prim.Native.String.{String}
use soundswamp.Prelude.{[], ◌∷◌}
use soundswamp.Prelude.Table.{GoString}

-- The bytes of an ASCII text.
abbrev pub codes : String → GoString
codes String.[] = []
codes (String.◌∷◌ c s) = code c ∷ codes s
