-- ===== src/Prelude/Text.antt =====
-- Go strings are lists of bytes. `codes` reads an ASCII literal; it is shut, so that a literal
-- stays one word in a proof, and a test unfolds it.
use Prim.Native.Nat.{ℕ, ◌<◌}
use Prim.Native.Char.{code}
use Prim.Native.String.{String}
use mathlib.Core.Path.{◌≡◌, refl}
use mathlib.Core.Logic.{◌↔◌}
use mathlib.Core.Bool.{Bool, true, false, ◌&&◌}
use mathlib.Core.List.{List, [], ◌∷◌}
use native.Mathlib.Omega.{arith}
use go_personal_web.Prelude.Tests.{◌==◌}
use go_personal_web.Prelude.Lists.{All}

abbrev pub Bytes : Type 0
Bytes = List ℕ

abbrev pub IsByte : ℕ → Type 0
IsByte b = b < 256

unfoldable pub codes : String → Bytes
codes String.[] = []
codes (String.◌∷◌ c s) = code c ∷ codes s

infix 50 ◌=ᵇ◌
unfoldable pub ◌=ᵇ◌ : Bytes → Bytes → Bool
[] =ᵇ [] = true
[] =ᵇ (d ∷ t) = false
(c ∷ s) =ᵇ [] = false
(c ∷ s) =ᵇ (d ∷ t) = (c == d) && (s =ᵇ t)

pub =ᵇ_iff : (s t : Bytes) → ((s =ᵇ t) ≡ true) ↔ (s ≡ t)
unfolding ◌=ᵇ◌
=ᵇ_iff [] [] = (λ _. refl, λ _. refl)
=ᵇ_iff [] (d ∷ t) = ground arith
=ᵇ_iff (c ∷ s) [] = ground arith
=ᵇ_iff (c ∷ s) (d ∷ t) = ground (arith, =ᵇ_iff s t)

pub =ᵇ_refl : (s : Bytes) → (s =ᵇ s) ≡ true
=ᵇ_refl s = (=ᵇ_iff s s).1 refl

-- Every byte of the text differs from `c`.
abbrev pub Lacks : ℕ → Bytes → Type 0
Lacks c = All (λ d. d ≡ c → ⊥)
