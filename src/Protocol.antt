-- ===== src/Protocol.antt =====
-- include/photospider/ipc/protocol.hpp and the method codes of src/lib/ipc/codec.hpp: the values
-- that travel between a client and the daemon.
use photospider_daemon.Base.{ℕ, ◌*◌, Bool, List, Bytes}
use photospider_daemon.Kernel.{Status}

abbrev pub protocol_version : ℕ
protocol_version = 3

abbrev pub maximum_frame_payload_bytes : ℕ
maximum_frame_payload_bytes = 4 * 1024 * 1024

pub record SessionId : Type 0 where
  pub instance_id : ℕ
  pub value : ℕ

pub record JobId : Type 0 where
  pub instance_id : ℕ
  pub value : ℕ

pub data JobState : Type 0 where
  queued running succeeded failed cancelled : JobState

pub record JobSubmitOptions : Type 0 where
  pub allow_gpu : Bool
  pub maximum_parallelism : ℕ

pub record JobStatus : Type 0 where
  pub job_id : JobId
  pub session_id : SessionId
  pub state : JobState
  pub outcome : Status

pub record DaemonInfo : Type 0 where
  pub version : ℕ
  pub instance_id : ℕ
  pub service_version : Bytes
  pub transport : Bytes
  pub methods : List Bytes
  pub active_sessions : ℕ
  pub active_jobs : ℕ
  pub maximum_concurrency : ℕ
  pub maximum_sessions : ℕ

pub data Method : Type 0 where
  session_create session_close job_submit job_status job_cancel job_result job_release : Method
  daemon_info daemon_shutdown : Method
