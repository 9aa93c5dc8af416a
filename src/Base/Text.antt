-- ===== src/Base/Text.antt =====
-- C strings and byte buffers: a string is the list of its bytes without the final NUL, a buffer
-- the list of its bytes. The functions of <string.h> that the program calls.
use Prim.Native.Nat.{ℕ, zero, suc}
use Prim.Native.Char.{code}
use Prim.Native.String.{String}
use mathlib.Core.Path.{◌≡◌, refl}
use mathlib.Core.Logic.{◌↔◌}
use mathlib.Core.Bool.{Bool, true, false, ◌&&◌, ◌||◌}
use mathlib.Core.List.{List, [], ◌∷◌, ◌++◌}
use native.Mathlib.Omega.{arith}
use gfhttpd.Base.Tests.{◌==◌}
use gfhttpd.Base.Lists.{length, drop}

abbrev pub Bytes : Type 0
Bytes = List ℕ

-- The bytes of an ASCII literal.
abbrev pub bytes : String → Bytes
bytes String.[] = []
bytes (String.◌∷◌ c s) = code c ∷ bytes s

-- Equality of strings: `strcmp(s, t) == 0`.
abbrev pub bytes_eq : Bytes → Bytes → Bool
bytes_eq [] [] = true
bytes_eq [] (_ ∷ _) = false
bytes_eq (_ ∷ _) [] = false
bytes_eq (a ∷ s) (b ∷ t) = (a == b) && bytes_eq s t

-- `memcmp(s, sub, length sub) == 0`: `s` begins with the bytes of `sub`.
abbrev pub starts_with : Bytes → Bytes → Bool
starts_with s [] = true
starts_with [] (_ ∷ _) = false
starts_with (a ∷ s) (b ∷ t) = (a == b) && starts_with s t

-- `strstr(s, sub) != NULL`
abbrev pub strstr : Bytes → Bytes → Bool
strstr [] sub = starts_with [] sub
strstr (a ∷ s) sub = starts_with (a ∷ s) sub || strstr s sub

-- `strchr(s, c) != NULL`, for a `c` other than NUL
abbrev pub strchr : Bytes → ℕ → Bool
strchr [] c = false
strchr (a ∷ s) c = (a == c) || strchr s c

-- What a buffer holds as a C string: the bytes before the first NUL.
abbrev pub c_str : Bytes → Bytes
c_str [] = []
c_str (zero ∷ _) = []
c_str (suc a ∷ s) = suc a ∷ c_str s

pub bytes_eq_iff : (s t : Bytes) → (bytes_eq s t ≡ true) ↔ (s ≡ t)
bytes_eq_iff [] [] = ground arith
bytes_eq_iff [] (b ∷ t) = ground arith
bytes_eq_iff (a ∷ s) [] = ground arith
bytes_eq_iff (a ∷ s) (b ∷ t) = ground (arith, bytes_eq_iff s t)

pub starts_with-append : (s t : Bytes) → starts_with (s ++ t) s ≡ true
starts_with-append [] t = refl
starts_with-append (a ∷ s) t = ground (arith, starts_with-append s t)

pub eq-append_of_starts_with : (s t : Bytes) → starts_with s t ≡ true → s ≡ t ++ drop (length t) s
eq-append_of_starts_with s [] h = refl
eq-append_of_starts_with [] (b ∷ t) h = ground arith
eq-append_of_starts_with (a ∷ s) (b ∷ t) h = ground (arith, eq-append_of_starts_with s t)
