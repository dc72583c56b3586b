-- ===== src/Common/Text.antt =====
-- Operations of Python on texts.
use Prim.Native.Nat.{ℕ, zero, suc}
use Prim.Native.String.{String, [], ◌∷◌, ◌++◌, count}
use ipapp.Common.Tests.{ltb, if◌then◌else◌}

abbrev pub take : ℕ → String → String
take zero s = []
take (suc n) [] = []
take (suc n) (c ∷ s) = c ∷ take n s

-- `if len(val) > max_len: val = val[:max_len]`
unfoldable pub clip : ℕ → String → String
clip max_len val = if ltb max_len (count val) then take max_len val else val

-- `s + t`
infixr 65 ◌⁀◌
abbrev pub ◌⁀◌ : String → String → String
s ⁀ t = s ++ t
