-- ===== src/Nats/Stream/Laws.antt =====
-- The bounds of the stream that is asked for (embedded/nats/kv/kv.go).
use foliage_sdk.Common.{ℕ, ◌≤◌, true, false, Option, none, some, List, [], ◌∷◌, ◌≡◌, refl, arith}
use mathlib.Core.Path.{subst}
use foliage_sdk.Common.Int.{ℤ, pos, negsuc, ltb_ℤ, eqb_ℤ}
use foliage_sdk.Common.Text.{Str}
use foliage_sdk.Nats.Version.{Version, version_components, is_min_version}
use foliage_sdk.Nats.Stream.{
  KeyValueConfig, StreamConfig, prepared, stream_config, prepare, two_minutes, is_valid_bucket,
  duplicate_window, or_default, with_origin,
}

abbrev pub IsBounded : ℕ → StreamConfig → Type 0
IsBounded max_history c =
    (1 ≤ c.max_msgs_per_subject)
    × (c.max_msgs_per_subject ≤ max_history)
    × (ltb_ℤ (pos 0) c.duplicates ≡ true)
    × (ltb_ℤ two_minutes c.duplicates ≡ false)
    × (eqb_ℤ c.max_bytes (pos 0) ≡ false)
    × (eqb_ℤ c.replicas (pos 0) ≡ false)

duplicate_window-bounds :
    (ttl : ℤ)
    → (ltb_ℤ (pos 0) (duplicate_window ttl) ≡ true)
      × (ltb_ℤ two_minutes (duplicate_window ttl) ≡ false)
duplicate_window-bounds (pos n) = (ground arith, ground arith)
duplicate_window-bounds (negsuc n) = (refl, refl)

or_default-nonzero :
    (default v : ℤ) → eqb_ℤ default (pos 0) ≡ false → eqb_ℤ (or_default default v) (pos 0) ≡ false
or_default-nonzero default v h = ground arith

-- Mirrors, sources and subjects do not touch the bounds.
with_origin-IsBounded :
    (max_history : ℕ) (m : Option Str) (sources : List Str) (bucket : Str) (c : StreamConfig)
    → IsBounded max_history c
    → IsBounded max_history (with_origin m sources bucket c)
with_origin-IsBounded max_history (some m) sources bucket c h = h
with_origin-IsBounded max_history none (n ∷ sources) bucket c h = h
with_origin-IsBounded max_history none [] bucket c h = h

stream_config-IsBounded :
    (max_history : ℕ) (server : Option Version) (cfg : KeyValueConfig)
    → 1 ≤ max_history
    → cfg.history ≤ max_history
    → IsBounded max_history (stream_config server cfg)
unfolding stream_config
stream_config-IsBounded max_history server cfg h k =
    let (positive, short) = duplicate_window-bounds cfg.ttl in
    with_origin-IsBounded max_history cfg.mirror cfg.sources cfg.bucket _ (
      ground arith,
      ground arith,
      positive,
      short,
      or_default-nonzero (negsuc 0) cfg.max_bytes refl,
      or_default-nonzero (pos 1) cfg.replicas refl,
    )

-- What is checked before `AddStream`: the server's version, the bucket's name and the account. When
-- `CreateKeyValue` gets as far as to ask for a stream, the server is at least of version 2.6.2, the
-- name of the bucket is valid, and the stream keeps between 1 and `max_history` messages for a
-- subject, has a duplicate window that is positive and at most two minutes, and a size limit and a
-- number of replicas that are not 0. The bound `max_history` is at least 1.
pub prepare-IsBounded :
    (max_history : ℕ) (account_info : Option Str) (server_version : Str) (cfg : KeyValueConfig)
    (c : StreamConfig)
    → 1 ≤ max_history
    → prepare max_history account_info server_version (some cfg) ≡ prepared c
    → (is_min_version
          (version_components server_version)
          (record { major = 2; minor = 6; patch = 2 })
        ≡ true)
      × (is_valid_bucket cfg.bucket ≡ true)
      × (account_info ≡ none)
      × IsBounded max_history c
unfolding prepare
prepare-IsBounded max_history (some e) server_version cfg c h p = absurd (ground arith)
prepare-IsBounded max_history none server_version cfg c h p =
    let server = version_components server_version in
    let made : stream_config server cfg ≡ c = ground arith in
    (
      ground arith,
      ground arith,
      refl,
      subst (IsBounded max_history) made
          (stream_config-IsBounded max_history server cfg h (ground arith)),
    )
