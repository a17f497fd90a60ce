-- ===== src/Codec/Info.antt =====
-- The daemon.info payload of src/lib/ipc/codec.cpp: `validate_daemon_info` and its fields.
use photospider_daemon.Base.{
  ℕ, Bool, true, false, not, ◌&&◌, ◌||◌, List, [], ◌∷◌, Bytes, length, ltb, ◌==◌, if◌then◌else◌,
  Option, none, some, bytes_of,
}
use photospider_daemon.Kernel.{Kernel}
use photospider_daemon.Protocol.{protocol_version, DaemonInfo}
use photospider_daemon.Codec.Failure.{CodecFailure, invalid}
use photospider_daemon.Codec.Encoder
use photospider_daemon.Codec.Encoder.{Encode, ◌>>◌, ensure, each}
use photospider_daemon.Codec.Decoder
use photospider_daemon.Codec.Decoder.{
  Decode, ◌>>=◌, pure, require, repeat, require_count_fits, CountContract,
}
use photospider_daemon.Codec.Method.{method_inventory}
use photospider_daemon.Codec.Status.{is_empty}

abbrev pub daemon_methods_contract : CountContract
daemon_methods_contract = record { minimum_entry_bytes = 4; required_suffix_bytes = 24 }

-- `operator==` on strings and on vectors of strings.
unfoldable pub bytes_eq : Bytes → Bytes → Bool
bytes_eq [] [] = true
bytes_eq (x ∷ xs) (y ∷ ys) = x == y && bytes_eq xs ys
bytes_eq _ _ = false

unfoldable pub names_eq : List Bytes → List Bytes → Bool
names_eq [] [] = true
names_eq (x ∷ xs) (y ∷ ys) = bytes_eq x y && names_eq xs ys
names_eq _ _ = false

module _ ⦃k : Kernel⦄ where
  unfoldable pub validate_daemon_info : DaemonInfo → Option CodecFailure
  validate_daemon_info info =
      if not (info.version == protocol_version)
        || (info.instance_id == 0
            || (is_empty info.service_version
                || (not (bytes_eq info.transport (bytes_of "unix-domain"))
                    || (info.maximum_concurrency == 0
                        || (info.maximum_sessions == 0
                            || not (names_eq info.methods method_inventory))))))
      then some (invalid "wire daemon.info payload is inconsistent")
      else none

  unfoldable pub encode_name : Bytes → Encode
  encode_name name = Encoder.text name 64

  -- The method names, the live counts and the bounds.
  unfoldable pub encode_capabilities : DaemonInfo → Encode
  encode_capabilities info =
      ensure (not (ltb 16 (length info.methods))) (invalid "daemon method inventory is too large")
      >> (Encoder.u8 (length info.methods)
          >> (each encode_name info.methods
              >> (Encoder.u64 info.active_sessions
                  >> (Encoder.u64 info.active_jobs
                      >> (Encoder.u32 info.maximum_concurrency
                          >> Encoder.u32 info.maximum_sessions)))))

  unfoldable pub decode_capabilities : ℕ → ℕ → Bytes → Bytes → Decode DaemonInfo
  decode_capabilities version instance_id service_version transport = do
    method_count ← Decoder.u8
    _ ← require (not (ltb 16 method_count)) (invalid "response has too many methods")
    _ ← require_count_fits method_count daemon_methods_contract
    methods ← repeat method_count (Decoder.text 64)
    active_sessions ← Decoder.u64
    active_jobs ← Decoder.u64
    maximum_concurrency ← Decoder.u32
    maximum_sessions ← Decoder.u32
    pure (record {
      version = version;
      instance_id = instance_id;
      service_version = service_version;
      transport = transport;
      methods = methods;
      active_sessions = active_sessions;
      active_jobs = active_jobs;
      maximum_concurrency = maximum_concurrency;
      maximum_sessions = maximum_sessions;
    })

  unfoldable pub encode_daemon_info : DaemonInfo → Encode
  encode_daemon_info info =
      Encoder.u16 info.version
      >> (Encoder.u64 info.instance_id
          >> (Encoder.text info.service_version 128
              >> (Encoder.text info.transport 64 >> encode_capabilities info)))

  unfoldable pub decode_daemon_info : Decode DaemonInfo
  decode_daemon_info = do
    version ← Decoder.u16
    instance_id ← Decoder.u64
    service_version ← Decoder.text 128
    transport ← Decoder.text 64
    decode_capabilities version instance_id service_version transport
