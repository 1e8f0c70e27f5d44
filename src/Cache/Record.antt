-- ===== src/Cache/Record.antt =====
-- The form of a value in the bucket (statefun/cache/cache.go): eight bytes of the record's time, big
-- end first, the append flag, and the bytes of the value.
pub mod Laws
use foliage_sdk.Common.{
  ℕ, Bool, true, false, Option, none, some, List, [], ◌∷◌, ◌++◌, ◌==◌, length, take, drop, ltb,
  if◌then◌else◌,
}
use foliage_sdk.Common.Int.{ℤ}
use foliage_sdk.Common.Text.{Str}
use foliage_sdk.System.Bytes.{
  to_uint64, from_uint64, put_big_endian, get_big_endian, put_little_endian, get_little_endian,
}
use foliage_sdk.Cache.Value.{Entry}

-- The bytes of an interface that holds a byte slice.
abbrev pub bytes_of : Option Str → Str
bytes_of none = []
bytes_of (some s) = s

-- The bytes that the lazy writer puts for a value that has to be synchronised.
unfoldable pub final_bytes : Entry → Str
unfolding put_big_endian to_uint64 put_little_endian
final_bytes e =
    let time_bytes = put_big_endian 8 (to_uint64 e.value_update_time) in
    if e.value_exists then time_bytes ++ (1 ∷ bytes_of e.value) else time_bytes ++ (0 ∷ [])

-- A record as `GetValue` and the updates handler take it apart.
pub data KvRecord : Type 0 where
  empty : KvRecord
  short : KvRecord
  record_of : ℤ → ℕ → Str → KvRecord

abbrev flag_and_value : ℤ → Str → KvRecord
flag_and_value time [] = short
flag_and_value time (flag ∷ value) = record_of time flag value

unfoldable pub parse_record : Str → KvRecord
unfolding get_big_endian from_uint64 get_little_endian
parse_record [] = empty
parse_record (b ∷ bs) =
    flag_and_value (from_uint64 (get_big_endian (take 8 (b ∷ bs)))) (drop 8 (b ∷ bs))
