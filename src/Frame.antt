-- ===== src/Frame.antt =====
-- src/lib/ipc/frame.cpp: frames with a big-endian length over a stream. The stream is the operating
-- system's: an `Input` is what the peer sends until it closes, and how `recv` doles it out; an
-- `Output` is what `send` accepts.
pub mod Stream
pub mod Payload
pub mod Framing
pub mod Termination
pub mod RoundTrip
use photospider_daemon.Base.{
  ℕ, zero, suc, ◌+◌, ◌-◌, ◌*◌, ◌/◌, ◌%◌, ◌^◌, Bool, true, false, ◌&&◌, List, [], ◌∷◌, ◌++◌, Bytes,
  length, take, drop, min, ltb, leb, ◌==◌, if◌then◌else◌, Option, none, some, bit_or, bytes_of,
}
use photospider_daemon.Base.Outcome.{Outcome, ok, err}
use photospider_daemon.Kernel.{Kernel, Status, Result, success, failure}
use photospider_daemon.Protocol.{maximum_frame_payload_bytes}

-- One call of `recv`: so many bytes and one more at most, EINTR, or an error with the text of
-- `strerror`.
pub data Pace : Type 0 where
  up_to : ℕ → Pace
  interrupted : Pace
  broken : Bytes → Pace

pub record Input : Type 0 where
  pub incoming : Bytes
  pub paces : List Pace

pub data Received : Type 0 where
  got : Bytes → Received
  closed again : Received
  failed : Bytes → Received

abbrev pub deliver : ℕ → Bytes → List Pace → Received × Input
deliver n [] paces = (closed, record { incoming = []; paces = paces })
deliver n (b ∷ bs) paces =
    (got (take n (b ∷ bs)), record { incoming = drop n (b ∷ bs); paces = paces })

-- `recv` of up to `n` bytes. It gives what is asked for once the paces are used up.
abbrev pub recv_at : ℕ → Bytes → List Pace → Received × Input
recv_at n bytes [] = deliver n bytes []
recv_at n bytes (up_to k ∷ paces) = deliver (min n (k + 1)) bytes paces
recv_at n bytes (interrupted ∷ paces) = (again, record { incoming = bytes; paces = paces })
recv_at n bytes (broken text ∷ paces) = (failed text, record { incoming = bytes; paces = paces })

unfoldable pub recv : ℕ → Input → Received × Input
recv n s = recv_at n s.incoming s.paces

-- A loop of calls: `none` is a loop that has not ended within its fuel.
abbrev pub Reads : Type 0 → Type 0
Reads A = Option (A × Input)

module _ ⦃k : Kernel⦄ where
  abbrev pub closed_early : Status
  closed_early = failure k.invalid_argument (bytes_of "local peer closed during a frame")

  abbrev pub closed_cleanly : Status
  closed_cleanly = failure k.not_found (bytes_of "local peer closed the connection")

  abbrev pub read_failed : Bytes → Status
  read_failed text = failure k.internal (bytes_of "local frame read failed: " ++ text)

  -- `read_exact`: `offset` is the length of `bytes`. Its caller does not look at `clean_eof`.
  unfoldable pub read_exact : ℕ → ℕ → Bytes → Input → Reads (Result Bytes)
  read_exact zero size bytes s = none
  read_exact (suc fuel) size bytes s = elim (ltb (length bytes) size) [
    | false ↦ some (ok bytes, s)
    | true ↦
        let after = (recv (size - length bytes) s).1 in
        elim ((recv (size - length bytes) s).0) [
          | got more ↦ read_exact fuel size (bytes ++ more) after
          | closed ↦ some (err (if length bytes == 0 then closed_cleanly else closed_early), after)
          | again ↦ read_exact fuel size bytes after
          | failed text ↦ some (err (read_failed text), after)
        ]
  ]

abbrev pub read_chunk_bytes : ℕ
read_chunk_bytes = 16 * 1024

abbrev pub correlation_prefix_bytes : ℕ
correlation_prefix_bytes = 11

-- `FrameReadProgress`: the initialised bytes of the prefix, whose number is their length.
abbrev pub Progress : Type 0
Progress = Bytes

-- What a received chunk adds to the prefix.
abbrev pub capture : Bytes → Progress → Progress
capture chunk progress =
    if ltb (length progress) correlation_prefix_bytes
    then progress ++ take (min (length chunk) (correlation_prefix_bytes - length progress)) chunk
    else progress

module _ ⦃k : Kernel⦄ where
  unfoldable pub read_payload : ℕ → ℕ → Bytes → Progress → Input → Reads (Result Bytes × Progress)
  read_payload zero size payload progress s = none
  read_payload (suc fuel) size payload progress s = elim (ltb (length payload) size) [
    | false ↦ some ((ok payload, progress), s)
    | true ↦
        let requested = min (size - length payload) read_chunk_bytes in
        let after = (recv requested s).1 in
        elim ((recv requested s).0) [
          | got chunk ↦ read_payload fuel size (payload ++ chunk) (capture chunk progress) after
          | closed ↦ some ((err closed_early, progress), after)
          | again ↦ read_payload fuel size payload progress after
          | failed text ↦ some ((err (read_failed text), progress), after)
        ]
  ]

-- The rounds that a loop can take: each takes a byte or a pace.
abbrev pub rounds : Input → ℕ
rounds s = suc (length s.incoming + length s.paces)

-- The length that a header gives.
unfoldable pub header_size : Bytes → ℕ
header_size (h0 ∷ h1 ∷ h2 ∷ h3 ∷ _) =
    bit_or (bit_or (bit_or (h0 * 2 ^ 24) (h1 * 2 ^ 16)) (h2 * 2 ^ 8)) h3
header_size _ = 0

unfoldable pub size_allowed : ℕ → Bool
size_allowed size = ltb 0 size && leb size maximum_frame_payload_bytes

module _ ⦃k : Kernel⦄ where
  -- Behind a header that was read.
  unfoldable pub read_body : Bytes → Input → Reads (Result Bytes × Progress)
  read_body header s =
      if size_allowed (header_size header)
      then read_payload (rounds s) (header_size header) [] [] s
      else some (
        (err (failure k.invalid_argument (bytes_of "frame payload length is outside bounds")), []),
        s,
      )

  -- `read_frame` on a valid descriptor.
  unfoldable pub read_frame : Input → Reads (Result Bytes × Progress)
  read_frame s = elim (read_exact (rounds s) 4 [] s) [
    | none ↦ none
    | some (err status, after) ↦ some ((err status, []), after)
    | some (ok header, after) ↦ read_body header after
  ]

-- One call of `send`: so many bytes at most, EINTR, or an error.
pub data Acceptance : Type 0 where
  takes : ℕ → Acceptance
  signalled : Acceptance
  refused : Bytes → Acceptance

pub record Output : Type 0 where
  pub acceptances : List Acceptance
  pub sent : Bytes

module _ ⦃k : Kernel⦄ where
  abbrev pub write_failed : Bytes → Status
  write_failed text = failure k.internal (bytes_of "local frame write failed: " ++ text)

  abbrev pub no_progress : Status
  no_progress = failure k.internal (bytes_of "local frame write made no progress")

  -- `write_exact` of the bytes that are left. Once the acceptances are used up, `send` takes all.
  unfoldable pub write_exact : Bytes → List Acceptance → Bytes → Status × Output
  write_exact [] calls sent = (success, record { acceptances = calls; sent = sent })
  write_exact (b ∷ bs) [] sent = (success, record { acceptances = []; sent = sent ++ b ∷ bs })
  write_exact (b ∷ bs) (takes zero ∷ calls) sent =
      (no_progress, record { acceptances = calls; sent = sent })
  write_exact (b ∷ bs) (takes (suc n) ∷ calls) sent =
      write_exact (drop n bs) calls (sent ++ b ∷ take n bs)
  write_exact (b ∷ bs) (signalled ∷ calls) sent = write_exact (b ∷ bs) calls sent
  write_exact (b ∷ bs) (refused text ∷ calls) sent =
      (write_failed text, record { acceptances = calls; sent = sent })

-- The four bytes of `write_frame`, the highest first.
unfoldable pub size_header : ℕ → Bytes
size_header size =
    size / 2 ^ 24 % 2 ^ 8 ∷ size / 2 ^ 16 % 2 ^ 8 ∷ size / 2 ^ 8 % 2 ^ 8 ∷ size % 2 ^ 8 ∷ []

module _ ⦃k : Kernel⦄ where
  -- The payload, where the header was written.
  abbrev pub write_rest : Bytes → Status × Output → Status × Output
  write_rest payload (status, out) =
      if k.status_ok status then write_exact payload out.acceptances out.sent else (status, out)

  -- `write_frame` on a valid descriptor. The bound of `std::uint32_t` is above the frame's.
  unfoldable pub write_frame : Bytes → Output → Status × Output
  write_frame payload out =
      if size_allowed (length payload)
      then write_rest payload (write_exact (size_header (length payload)) out.acceptances out.sent)
      else (failure k.invalid_argument (bytes_of "frame descriptor or payload is invalid"), out)
