-- ===== src/System/Bytes.antt =====
-- Fixed-width encodings: `Int64ToBytes` and `BytesToInt64` of statefun/system/system.go, and the
-- big-endian form that statefun/cache/cache.go writes its record times in.
pub mod Laws
use foliage_sdk.Common.{
  ℕ, zero, suc, ◌+◌, ◌-◌, ◌*◌, ◌/◌, ◌%◌, ◌^◌, List, [], ◌∷◌, length, take, ltb, if◌then◌else◌,
}
use foliage_sdk.Common.Int.{ℤ, pos, negsuc}
use foliage_sdk.Common.Text.{Str}
use mathlib.Core.List.{reverse}

-- uint64(v) of an int64 v.
unfoldable pub to_uint64 : ℤ → ℕ
to_uint64 (pos n) = n % 2 ^ 64
to_uint64 (negsuc n) = 2 ^ 64 - 1 - n % 2 ^ 64

-- int64(n) of a uint64 n.
unfoldable pub from_uint64 : ℕ → ℤ
from_uint64 n = if ltb n (2 ^ 63) then pos n else negsuc (2 ^ 64 - 1 - n)

-- The low `k` bytes of a number, the lowest first.
unfoldable pub put_little_endian : ℕ → ℕ → Str
put_little_endian zero n = []
put_little_endian (suc k) n = n % 256 ∷ put_little_endian k (n / 256)

unfoldable pub get_little_endian : Str → ℕ
get_little_endian [] = 0
get_little_endian (b ∷ bs) = b + 256 * get_little_endian bs

unfoldable pub put_big_endian : ℕ → ℕ → Str
put_big_endian k n = reverse (put_little_endian k n)

unfoldable pub get_big_endian : Str → ℕ
get_big_endian bs = get_little_endian (reverse bs)

unfoldable pub int64_to_bytes : ℤ → Str
int64_to_bytes v = put_little_endian 8 (to_uint64 v)

-- A slice that is too short reads as 0; only the first eight bytes count.
unfoldable pub bytes_to_int64 : Str → ℤ
bytes_to_int64 v = if ltb (length v) 8 then pos 0 else from_uint64 (get_little_endian (take 8 v))
