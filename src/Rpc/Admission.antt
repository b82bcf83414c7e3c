-- ===== src/Rpc/Admission.antt =====
-- crates/libs/nexigon-rpc/src/lib.rs: the limits of `RpcAdmission` and their check. A duration is its
-- nanoseconds. `max_permits` is `Semaphore::MAX_PERMITS`.
use nexigon.Base.{ℕ, ◌*◌, ◌||◌, ltb, ◌==◌, if◌then◌else◌}
use nexigon.Rpc.{max_input_size}

abbrev pub max_body_timeout : ℕ
max_body_timeout = 5 * 60 * 1000000000

pub record RpcLimits : Type 0 where
  pub global_memory_bytes : ℕ
  pub per_actor_memory_bytes : ℕ
  pub body_timeout : ℕ

abbrev pub default_rpc_limits : RpcLimits
default_rpc_limits = record {
  global_memory_bytes = 64 * 1024 * 1024;
  per_actor_memory_bytes = 16 * 1024 * 1024;
  body_timeout = 30 * 1000000000;
}

pub data RpcLimitsError : Type 0 where
  zero_memory : RpcLimitsError
  actor_exceeds_global : RpcLimitsError
  below_protocol_maximum : (minimum : ℕ) → RpcLimitsError
  zero_timeout : RpcLimitsError
  timeout_too_large : (maximum : ℕ) → RpcLimitsError
  memory_too_large : RpcLimitsError

-- The capacities of a directional pool, and a controller with its two pools.
pub record Capacities : Type 0 where
  pub global_capacity : ℕ
  pub actor_capacity : ℕ

pub record RpcAdmission : Type 0 where
  pub request : Capacities
  pub response : Capacities
  pub timeout : ℕ

pub data Admitted : Type 0 where
  admitted_by : RpcAdmission → Admitted
  invalid : RpcLimitsError → Admitted

abbrev pub controller : RpcLimits → RpcAdmission
controller l = record {
  request = record {
    global_capacity = l.global_memory_bytes;
    actor_capacity = l.per_actor_memory_bytes;
  };
  response = record {
    global_capacity = l.global_memory_bytes;
    actor_capacity = l.per_actor_memory_bytes;
  };
  timeout = l.body_timeout;
}

-- The largest bodies of both directions have the same size.
unfoldable pub new_admission : ℕ → RpcLimits → Admitted
new_admission max_permits l =
    if l.global_memory_bytes == 0 || l.per_actor_memory_bytes == 0
    then invalid zero_memory
    else if ltb l.global_memory_bytes l.per_actor_memory_bytes
    then invalid actor_exceeds_global
    else if ltb l.per_actor_memory_bytes max_input_size
    then invalid (below_protocol_maximum max_input_size)
    else if l.body_timeout == 0
    then invalid zero_timeout
    else if ltb max_body_timeout l.body_timeout
    then invalid (timeout_too_large max_body_timeout)
    else if ltb max_permits l.global_memory_bytes
    then invalid memory_too_large
    else admitted_by (controller l)

unfoldable pub effective_limits : RpcAdmission → RpcLimits
effective_limits a = record {
  global_memory_bytes = a.request.global_capacity;
  per_actor_memory_bytes = a.request.actor_capacity;
  body_timeout = a.timeout;
}
