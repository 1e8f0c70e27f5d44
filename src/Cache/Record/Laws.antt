-- ===== src/Cache/Record/Laws.antt =====
-- The record of the writer, and what the readers take apart (statefun/cache/cache.go).
use foliage_sdk.Common.{
  ℕ, [], ◌∷◌, ◌++◌, ◌≡◌, refl, ap, length, if◌then◌else◌, arith, inl, inr, Bool-cases, ◌∙◌,
}
use foliage_sdk.Common.Int.{ℤ}
use foliage_sdk.Common.Text.{Str}
use foliage_sdk.System.Bytes.{to_uint64, from_uint64, put_big_endian, get_big_endian}
use foliage_sdk.System.Bytes.Laws.{
  IsInt64, get-put_big_endian, to_uint64_lt, from-to_uint64, length-put_big_endian,
}
use foliage_sdk.Cache.Value.{Entry}
use foliage_sdk.Cache.Record.{record_of, bytes_of, final_bytes, parse_record}

parse_parts :
    (h : Str) (flag : ℕ) (value : Str)
    → length h ≡ 8
    → parse_record (h ++ (flag ∷ value)) ≡ record_of (from_uint64 (get_big_endian h)) flag value
unfolding parse_record
parse_parts (a ∷ b ∷ c ∷ d ∷ e ∷ f ∷ g ∷ h ∷ []) flag value l = refl
parse_parts _ flag value l = absurd (omega arith)

-- The time that eight bytes stand for is the time that they were made from.
header_time :
    (v : ℤ) → IsInt64 v → from_uint64 (get_big_endian (put_big_endian 8 (to_uint64 v))) ≡ v
header_time v h =
    ap from_uint64 (get-put_big_endian 8 (to_uint64 v) (to_uint64_lt v)) ∙ from-to_uint64 v h

-- The record that the lazy writer puts for a value is read back with the value's update time, the
-- flag 1 and the value's bytes if the value exists, and with the flag 0 and no bytes if it was
-- deleted. The time is an int64.
pub parse_record-final_bytes :
    (e : Entry)
    → IsInt64 e.value_update_time
    → parse_record (final_bytes e)
      ≡ record_of e.value_update_time
          (if e.value_exists then 1 else 0)
          (if e.value_exists then bytes_of e.value else [])
unfolding final_bytes
parse_record-final_bytes e h =
    let t = to_uint64 e.value_update_time in
    elim (Bool-cases e.value_exists) [
      | inl p ↦ rw p (
          parse_parts (put_big_endian 8 t) 1 (bytes_of e.value) (length-put_big_endian 8 t)
          ∙ rw (header_time e.value_update_time h) refl)
      | inr p ↦ rw p (
          parse_parts (put_big_endian 8 t) 0 [] (length-put_big_endian 8 t)
          ∙ rw (header_time e.value_update_time h) refl)
    ]
