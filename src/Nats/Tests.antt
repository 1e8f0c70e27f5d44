-- ===== src/Nats/Tests.antt =====
-- Runs of embedded/nats/kv/kv.go on small configurations.
use foliage_sdk.Common.{some, none, [], ◌∷◌, ◌≡◌, refl, true}
use foliage_sdk.Common.Int.{pos, negsuc}
use foliage_sdk.Common.Text.{codes, has_prefix}
use foliage_sdk.Nats.Version.{Version, version_components, is_min_version, span_digits, atoi_onto}
use foliage_sdk.Nats.Stream.{KeyValueConfig, StreamConfig, prepared, prepare, stream_config}

abbrev config : KeyValueConfig
config = record {
  bucket = codes "store";
  history = 0;
  replicas = pos 0;
  max_bytes = pos 0;
  max_value_size = pos 0;
  ttl = pos 0;
  mirror = none;
  sources = [];
}

abbrev version : Version
version = record { major = 2; minor = 9; patch = 15 }

program : Unit {0}
unfolding version_components is_min_version span_digits atoi_onto prepare stream_config has_prefix
program = tt

reads_version : version_components (codes "v2.9.15-beta") ≡ some version
unfolding program
reads_version = refl

-- A version without a patch number is an error, and so too old.
short_version : version_components (codes "2.9") ≡ none
unfolding program
short_version = refl

is_new : is_min_version (some version) (record { major = 2; minor = 7; patch = 2 }) ≡ true
unfolding program
is_new = refl

is_newer :
    is_min_version
      (some (record { major = 2; minor = 7; patch = 2 }))
      (record { major = 2; minor = 6; patch = 2 })
    ≡ true
unfolding program
is_newer = refl

abbrev stream : StreamConfig
stream = record {
  name = codes "KV_store";
  max_msgs_per_subject = 1;
  max_bytes = negsuc 0;
  max_age = pos 0;
  max_msg_size = negsuc 0;
  replicas = pos 1;
  duplicates = pos 120_000_000_000;
  mirror = none;
  sources = [];
  subjects = codes "$KV.store.>" ∷ [];
  discard_new = true;
}

is_prepared : prepare 64 none (codes "2.9.15") (some config) ≡ prepared stream
unfolding program
is_prepared = refl
