-- ===== src/Prelude/Endian.antt =====
-- encoding/binary: numbers as a fixed count of bytes, and what is read back.
use Prim.Native.Nat.{ℕ, zero, suc, ◌+◌, ◌*◌, ◌/◌, ◌%◌, ◌^◌, ◌<◌}
use mathlib.Core.Path.{◌≡◌, refl, ap, sym, ◌∙◌}
use mathlib.Core.List.{[], ◌∷◌, reverse, reverse-reverse, reverse-cons}
use native.Mathlib.Omega.{arith}
use native.Mathlib.Nat.{pow-suc}
use hpcc.Prelude.Lists.{length, length-append}
use hpcc.Prelude.Text.{Bytes}

-- PutUint16, PutUint32 and PutUint64 of binary.LittleEndian, at 2, 4 and 8 bytes.
unfoldable pub le_bytes : ℕ → ℕ → Bytes
le_bytes zero n = []
le_bytes (suc k) n = n % 256 ∷ le_bytes k (n / 256)

unfoldable pub le_value : Bytes → ℕ
le_value [] = 0
le_value (b ∷ s) = b + 256 * le_value s

-- binary.BigEndian.
unfoldable pub be_bytes : ℕ → ℕ → Bytes
be_bytes k n = reverse (le_bytes k n)

pub le_value-le_bytes : (k n : ℕ) → n < 256 ^ k → le_value (le_bytes k n) ≡ n
unfolding le_bytes le_value
le_value-le_bytes zero n h = omega arith
le_value-le_bytes (suc k) n h =
    omega (arith, le_value-le_bytes k (n / 256) (omega (arith, pow-suc 256 k)))

pub length-le_bytes : (k n : ℕ) → length (le_bytes k n) ≡ k
unfolding le_bytes
length-le_bytes zero n = refl
length-le_bytes (suc k) n = ap suc (length-le_bytes k (n / 256))

pub le_bytes_injective :
    (k m n : ℕ) → m < 256 ^ k → n < 256 ^ k → le_bytes k m ≡ le_bytes k n → m ≡ n
le_bytes_injective k m n hm hn e =
    sym (le_value-le_bytes k m hm) ∙ ap le_value e ∙ le_value-le_bytes k n hn

pub be_bytes_injective :
    (k m n : ℕ) → m < 256 ^ k → n < 256 ^ k → be_bytes k m ≡ be_bytes k n → m ≡ n
unfolding be_bytes
be_bytes_injective k m n hm hn e =
    le_bytes_injective k m n hm hn
      (sym (reverse-reverse (le_bytes k m)) ∙ ap reverse e ∙ reverse-reverse (le_bytes k n))

length-reverse : (s : Bytes) → length (reverse s) ≡ length s
length-reverse [] = refl
length-reverse (c ∷ s) =
    omega
      (arith, ap length (reverse-cons c s), length-append (reverse s) (c ∷ []), length-reverse s)

pub length-be_bytes : (k n : ℕ) → length (be_bytes k n) ≡ k
unfolding be_bytes
length-be_bytes k n = length-reverse (le_bytes k n) ∙ length-le_bytes k n

unfoldable pub be_value : Bytes → ℕ
be_value s = le_value (reverse s)

pub be_value-be_bytes : (k n : ℕ) → n < 256 ^ k → be_value (be_bytes k n) ≡ n
unfolding be_bytes be_value
be_value-be_bytes k n h = ap le_value (reverse-reverse (le_bytes k n)) ∙ le_value-le_bytes k n h
