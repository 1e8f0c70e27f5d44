-- ===== src/Function/Config.antt =====
-- statefun/function_type_config.go, and the limit that NewFunctionType takes from it.
use foliage_sdk.Common.{ℕ, zero, suc, Bool, true, false, Option, none, some}
use foliage_sdk.Common.Int.{ℤ, pos, negsuc}

-- FunctionTypeConfig, with documents `J`
pub record Config (J : Type 0) : Type 0 where
  pub msg_ack_wait_ms : ℕ
  pub msg_channel_size : ℕ
  pub msg_ack_channel_size : ℕ
  pub balance_needed : Bool
  pub service_active : Bool
  pub mutex_life_time_sec : ℕ
  pub options : J
  pub multiple_instances_allowed : Bool
  pub max_id_handlers : ℤ

-- NewFunctionTypeConfig, with the empty document
unfoldable pub new_config : {J : Type 0} → J → Config J
new_config new_object = record {
  msg_ack_wait_ms = 10000;
  msg_channel_size = 64;
  msg_ack_channel_size = 64;
  balance_needed = true;
  service_active = false;
  mutex_life_time_sec = 120;
  options = new_object;
  multiple_instances_allowed = false;
  max_id_handlers = pos 20;
}

-- The capacity of instancesControlChannel; `none` is no channel, and no limit.
unfoldable pub capacity : ℤ → Option ℕ
capacity (pos zero) = none
capacity (pos (suc n)) = some (suc n)
capacity (negsuc n) = none
