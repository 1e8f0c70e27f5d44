-- ===== src/System/Bytes/Laws.antt =====
-- Encoding and decoding of int64 values (statefun/system/system.go).
use native.Mathlib.Nat.{pow-suc}
use mathlib.Core.List.{reverse, reverse-append, reverse-reverse}
use foliage_sdk.Common.{
  ℕ, zero, suc, ◌*◌, ◌/◌, ◌^◌, ◌<◌, ◌≡◌, refl, ap, ◌∙◌, [], ◌∷◌, length, length-append, take, arith,
}
use foliage_sdk.Common.Int.{ℤ, pos, negsuc}
use foliage_sdk.Common.Text.{Str}
use foliage_sdk.System.Bytes.{
  to_uint64, from_uint64, put_little_endian, get_little_endian, put_big_endian, get_big_endian,
  int64_to_bytes, bytes_to_int64,
}

-- The values of Go's int64.
abbrev pub IsInt64 : ℤ → Type 0
IsInt64 (pos n) = n < 2 ^ 63
IsInt64 (negsuc n) = n < 2 ^ 63

pub length-put_little_endian : (k n : ℕ) → length (put_little_endian k n) ≡ k
unfolding put_little_endian
length-put_little_endian zero n = refl
length-put_little_endian (suc k) n = ap suc (length-put_little_endian k (n / 256))

div_below : (n p : ℕ) → n < p * 256 → n / 256 < p
div_below n p h = omega arith

pub get-put_little_endian : (k n : ℕ) → n < 256 ^ k → get_little_endian (put_little_endian k n) ≡ n
unfolding put_little_endian get_little_endian
get-put_little_endian zero n h = omega arith
get-put_little_endian (suc k) n h =
    omega (arith, get-put_little_endian k (n / 256) (div_below n (256 ^ k) (rw pow-suc at h)))

pub get-put_big_endian : (k n : ℕ) → n < 256 ^ k → get_big_endian (put_big_endian k n) ≡ n
unfolding put_big_endian get_big_endian
get-put_big_endian k n h = rw reverse-reverse (get-put_little_endian k n h)

pub to_uint64_lt : (v : ℤ) → to_uint64 v < 2 ^ 64
unfolding to_uint64
to_uint64_lt (pos n) = omega arith
to_uint64_lt (negsuc n) = omega arith

pub from-to_uint64 : (v : ℤ) → IsInt64 v → from_uint64 (to_uint64 v) ≡ v
unfolding to_uint64 from_uint64
from-to_uint64 (pos n) h = ground arith
from-to_uint64 (negsuc n) h = ground arith

take_all : (s : Str) (k : ℕ) → length s ≡ k → take k s ≡ s
take_all [] zero h = refl
take_all [] (suc k) h = refl
take_all (c ∷ s) zero h = absurd (omega arith)
take_all (c ∷ s) (suc k) h = ap (◌∷◌ c) (take_all s k (omega arith))

-- Every int64 that is written by `Int64ToBytes` is read back by `BytesToInt64`.
pub bytes_to_int64-int64_to_bytes : (v : ℤ) → IsInt64 v → bytes_to_int64 (int64_to_bytes v) ≡ v
unfolding bytes_to_int64 int64_to_bytes
bytes_to_int64-int64_to_bytes v h =
    let s : Str = put_little_endian 8 (to_uint64 v) in
    rw (length-put_little_endian 8 (to_uint64 v)) (
      rw (take_all s 8 (length-put_little_endian 8 (to_uint64 v)))
        (rw (get-put_little_endian 8 (to_uint64 v) (to_uint64_lt v)) (from-to_uint64 v h)))

length-reverse : (s : Str) → length (reverse s) ≡ length s
length-reverse [] = refl
length-reverse (c ∷ s) =
    rw (reverse-append (c ∷ []) s)
      (omega (arith, length-append (reverse s) (c ∷ []), length-reverse s))

pub length-put_big_endian : (k n : ℕ) → length (put_big_endian k n) ≡ k
unfolding put_big_endian
length-put_big_endian k n = length-reverse (put_little_endian k n) ∙ length-put_little_endian k n
