-- ===== src/Base/Text.antt =====
-- Text as the list of its bytes.
use Prim.Native.Nat.{ℕ}
use Prim.Native.Char.{code}
use Prim.Native.String.{String}
use mathlib.Core.Bool.{Bool, true, false, ◌&&◌}
use mathlib.Core.Option.{Option, none, some}
use mathlib.Core.List.{List, [], ◌∷◌, ◌++◌}
use mathlib.Core.Path.{◌≡◌, refl}
use native.Mathlib.Omega.{arith}
use lock_free_mpmc_queue.Base.Tests.{◌==◌, if◌then◌else◌}

-- The bytes of an ASCII literal.
abbrev pub bytes : String → List ℕ
bytes String.[] = []
bytes (String.◌∷◌ c s) = code c ∷ bytes s

abbrev pub same_bytes : List ℕ → List ℕ → Bool
same_bytes [] [] = true
same_bytes [] (d ∷ t) = false
same_bytes (c ∷ s) [] = false
same_bytes (c ∷ s) (d ∷ t) = c == d && same_bytes s t

pub same_bytes-true : (s t : List ℕ) → same_bytes s t ≡ true → s ≡ t
same_bytes-true [] [] h = refl
same_bytes-true [] (d ∷ t) h = cc
same_bytes-true (c ∷ s) [] h = cc
same_bytes-true (c ∷ s) (d ∷ t) h = ground (arith, same_bytes-true s t)

-- What follows `key`, if the text starts with it.
abbrev pub after_prefix : List ℕ → List ℕ → Option (List ℕ)
after_prefix [] s = some s
after_prefix (k ∷ key) [] = none
after_prefix (k ∷ key) (c ∷ s) = if k == c then after_prefix key s else none

pub after_prefix-append : (key s : List ℕ) → after_prefix key (key ++ s) ≡ some s
after_prefix-append [] s = refl
after_prefix-append (k ∷ key) s = ground (arith, after_prefix-append key s)
