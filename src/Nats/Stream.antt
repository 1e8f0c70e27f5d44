-- ===== src/Nats/Stream.antt =====
-- `CreateKeyValue` of embedded/nats/kv/kv.go up to its call of `AddStream`: the checks, and the stream
-- that is asked for.
pub mod Laws
use foliage_sdk.Common.{
  ℕ, Bool, true, false, not, ◌&&◌, ◌||◌, Option, none, some, List, [], ◌∷◌, ◌++◌, ◌==◌, ltb, leb,
  map, if◌then◌else◌,
}
use foliage_sdk.Common.Int.{ℤ, pos, negsuc, ltb_ℤ, eqb_ℤ}
use foliage_sdk.Common.Text.{Str, codes, has_prefix}
use foliage_sdk.Nats.Version.{Version, version_components, is_min_version}

-- The fields of nats.KeyValueConfig that are looked at. Mirrors and sources stand by their names.
pub record KeyValueConfig : Type 0 where
  pub bucket : Str
  pub history : ℕ
  pub replicas : ℤ
  pub max_bytes : ℤ
  pub max_value_size : ℤ
  pub ttl : ℤ
  pub mirror : Option Str
  pub sources : List Str

pub record StreamConfig : Type 0 where
  pub name : Str
  pub max_msgs_per_subject : ℕ
  pub max_bytes : ℤ
  pub max_age : ℤ
  pub max_msg_size : ℤ
  pub replicas : ℤ
  pub duplicates : ℤ
  pub mirror : Option Str
  pub sources : List Str
  pub subjects : List Str
  pub discard_new : Bool

pub data CreateError : Type 0 where
  old_server : CreateError
  config_required : CreateError
  invalid_bucket_name : CreateError
  account_error : Str → CreateError
  history_to_large : CreateError

pub data Prepared : Type 0 where
  refused : CreateError → Prepared
  prepared : StreamConfig → Prepared

abbrev is_bucket_char : ℕ → Bool
is_bucket_char c =
    leb b'a' c && leb c b'z'
    || leb b'A' c && leb c b'Z'
    || leb b'0' c && leb c b'9'
    || c == b'_'
    || c == b'-'

abbrev all_bucket_chars : Str → Bool
all_bucket_chars [] = true
all_bucket_chars (c ∷ s) = is_bucket_char c && all_bucket_chars s

-- validBucketRe
abbrev pub is_valid_bucket : Str → Bool
is_valid_bucket [] = false
is_valid_bucket (c ∷ s) = all_bucket_chars (c ∷ s)

-- The name of the stream of a bucket, for a name that may have the prefix already.
abbrev pub stream_name : Str → Str
stream_name name = if has_prefix (codes "KV_") name then name else codes "KV_" ++ name

-- 0 stands for a default.
abbrev pub or_default : ℤ → ℤ → ℤ
or_default default v = if eqb_ℤ v (pos 0) then default else v

abbrev pub two_minutes : ℤ
two_minutes = pos 120_000_000_000

abbrev pub duplicate_window : ℤ → ℤ
duplicate_window ttl = if ltb_ℤ (pos 0) ttl && ltb_ℤ ttl two_minutes then ttl else two_minutes

abbrev with_origin : Option Str → List Str → Str → StreamConfig → StreamConfig
with_origin (some m) sources bucket c = record c { mirror = some (stream_name m) }
with_origin none (n ∷ sources) bucket c = record c { sources = map stream_name (n ∷ sources) }
with_origin none [] bucket c = record c { subjects = (codes "$KV." ++ (bucket ++ codes ".>")) ∷ [] }

unfoldable pub stream_config : Option Version → KeyValueConfig → StreamConfig
stream_config server cfg = with_origin cfg.mirror cfg.sources cfg.bucket (record {
  name = codes "KV_" ++ cfg.bucket;
  max_msgs_per_subject = if ltb 0 cfg.history then cfg.history else 1;
  max_bytes = or_default (negsuc 0) cfg.max_bytes;
  max_age = cfg.ttl;
  max_msg_size = or_default (negsuc 0) cfg.max_value_size;
  replicas = or_default (pos 1) cfg.replicas;
  duplicates = duplicate_window cfg.ttl;
  mirror = none;
  sources = [];
  subjects = [];
  discard_new = is_min_version server (record { major = 2; minor = 7; patch = 2 });
})

-- `max_history` is nats.KeyValueMaxHistory, `account_info` the error of js.AccountInfo, if any.
module _ (max_history : ℕ) (account_info : Option Str) where
  unfoldable pub prepare : Str → Option KeyValueConfig → Prepared
  prepare server_version cfg =
      let server = version_components server_version in
      if not (is_min_version server (record { major = 2; minor = 6; patch = 2 }))
      then refused old_server
      else elim cfg [
        | none ↦ refused config_required
        | some c ↦
            if not (is_valid_bucket c.bucket)
            then refused invalid_bucket_name
            else elim account_info [
              | some e ↦ refused (account_error e)
              | none ↦
                  if ltb 0 c.history && ltb max_history c.history
                  then refused history_to_large
                  else prepared (stream_config server c)
            ]
      ]
