-- ===== src/Base/Bytes.antt =====
-- Unsigned integers as big-endian bytes, as `put_u16`, `put_u32`, `put_u64` write them and
-- `from_be_bytes` reads them.
use Prim.Native.Nat.{ℕ, zero, suc, ◌+◌, ◌*◌, ◌/◌, ◌%◌, ◌<◌}
use mathlib.Core.Path.{◌≡◌, refl, ap}
use mathlib.Core.List.{List, [], ◌∷◌}
use native.Mathlib.Nat.{div-add-mod, mod-lt}
use native.Mathlib.Omega.{arith}
use mathlib.Core.Bool.{Bool, true, false, ◌&&◌}
use rstmdb.Base.Tests.{eqb}
use rstmdb.Base.Lists.{length, take, drop}

-- The modulus of a word of `n` bytes.
abbrev pub word : ℕ → ℕ
word zero = 1
word (suc n) = 256 * word n

-- The `n` low bytes of `v`, the highest first.
unfoldable pub put_be : ℕ → ℕ → List ℕ
put_be zero v = []
put_be (suc n) v = (v / word n % 256) ∷ put_be n (v % word n)

unfoldable pub from_be : List ℕ → ℕ
from_be [] = 0
from_be (b ∷ bs) = b * word (length bs) + from_be bs

pub length-put_be : (n v : ℕ) → length (put_be n v) ≡ n
unfolding put_be
length-put_be zero v = refl
length-put_be (suc n) v = ap suc (length-put_be n (v % word n))

word_pos : (n : ℕ) → 0 < word n
word_pos zero = omega arith
word_pos (suc n) = omega (arith, word_pos n)

high_byte : (v w : ℕ) → 0 < w → v < 256 * w → v / w % 256 ≡ v / w
high_byte v w p h = grind (arith, div-add-mod v w)

abbrev pub bytes_eq : List ℕ → List ℕ → Bool
bytes_eq [] [] = true
bytes_eq (a ∷ xs) (b ∷ ys) = eqb a b && bytes_eq xs ys
bytes_eq _ _ = false

-- `buf[i..j]`, read only after the length has been checked
abbrev pub slice : ℕ → ℕ → List ℕ → List ℕ
slice i n buf = take n (drop i buf)

abbrev pub byte : ℕ → List ℕ → ℕ
byte i buf = from_be (slice i 1 buf)

-- Reading back a word that was written gives the number, if it fits the word.
pub from_be-put_be : (n v : ℕ) → v < word n → from_be (put_be n v) ≡ v
unfolding put_be from_be
from_be-put_be zero v h = omega arith
from_be-put_be (suc n) v h =
    rw
      (
        high_byte v (word n) (word_pos n) h,
        length-put_be n (v % word n),
        from_be-put_be n (v % word n) (mod-lt v (word_pos n)),
      )
      (omega (arith, div-add-mod v (word n)))
