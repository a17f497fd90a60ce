-- ===== src/Frame/RoundTrip.antt =====
-- src/lib/ipc/frame.cpp: what `write_frame` sends, `read_frame` reads.
use photospider_daemon.Base.{
  ℕ, zero, suc, ◌+◌, ◌*◌, ◌/◌, ◌%◌, ◌^◌, ◌≤◌, ◌<◌, Bool, true, false, List, [], ◌∷◌, ◌++◌, Bytes,
  length, take, drop, leb, ltb, ◌==◌, arith, ◌≡◌, refl, sym, ap, ◌∙◌, append_assoc, append-nil,
  bit_or, take-append-drop, take-length_append, drop-length_append, length-append,
}
use photospider_daemon.Base.Bits.{bit_or_shifted}
use photospider_daemon.Base.Outcome.{ok}
use photospider_daemon.Kernel.{Kernel, Status, success, status_ok-success}
use photospider_daemon.Protocol.{maximum_frame_payload_bytes}
use photospider_daemon.Frame.{
  Pace, Input, Acceptance, takes, signalled, refused, Output, write_exact, size_header, write_rest,
  write_frame, header_size, size_allowed, read_frame,
}
use photospider_daemon.Frame.Stream.{is_steady, Yields, Yields-eq}
use photospider_daemon.Frame.Payload.{kept}
use photospider_daemon.Frame.Framing.{frame_behind, frame_of, read_frame-frame_of}

-- No call of `send` fails or takes nothing.
unfoldable pub is_willing : List Acceptance → Bool
is_willing [] = true
is_willing (takes zero ∷ calls) = false
is_willing (takes (suc n) ∷ calls) = is_willing calls
is_willing (signalled ∷ calls) = is_willing calls
is_willing (refused text ∷ calls) = false

-- The bytes of the whole write are sent.
pub record Sends (r : Status × Output) (sent : Bytes) ⦃k : Kernel⦄ : Type 0 where
  pub succeeds : r.0 ≡ success
  pub sends : r.1.sent ≡ sent
  pub willing : is_willing r.1.acceptances ≡ true

module _ ⦃k : Kernel⦄ where
  write_exact-Sends :
      (bytes : Bytes) (calls : List Acceptance) (sent : Bytes)
      → is_willing calls ≡ true
      → Sends (write_exact bytes calls sent) (sent ++ bytes)
  unfolding write_exact is_willing
  write_exact-Sends [] calls sent h = record {
    succeeds = refl;
    sends = sym (append-nil sent);
    willing = h;
  }
  write_exact-Sends (b ∷ bs) [] sent h = record { succeeds = refl; sends = refl; willing = refl }
  write_exact-Sends (b ∷ bs) (takes zero ∷ calls) sent h = absurd (cc)
  write_exact-Sends (b ∷ bs) (takes (suc n) ∷ calls) sent h =
      let written = write_exact-Sends (drop n bs) calls (sent ++ b ∷ take n bs) h in
      record {
        succeeds = written.succeeds;
        sends =
            written.sends
            ∙ append_assoc sent (b ∷ take n bs) (drop n bs)
            ∙ ap (λ c. sent ++ b ∷ c) (take-append-drop n bs);
        willing = written.willing;
      }
  write_exact-Sends (b ∷ bs) (signalled ∷ calls) sent h = write_exact-Sends (b ∷ bs) calls sent h
  write_exact-Sends (b ∷ bs) (refused text ∷ calls) sent h = absurd (cc)

four_bytes :
    (a b c d : ℕ)
    → b < 256
    → c < 256
    → d < 256
    → bit_or (bit_or (bit_or (a * 2 ^ 24) (b * 2 ^ 16)) (c * 2 ^ 8)) d
      ≡ a * 2 ^ 24 + b * 2 ^ 16 + c * 2 ^ 8 + d
four_bytes a b c d hb hc hd =
    let first : bit_or (a * 2 ^ 24) (b * 2 ^ 16) ≡ (a * 256 + b) * 2 ^ 16 =
      bit_or_shifted 24 a (b * 2 ^ 16) (omega arith) ∙ omega arith in
    let second : bit_or ((a * 256 + b) * 2 ^ 16) (c * 2 ^ 8) ≡ ((a * 256 + b) * 256 + c) * 2 ^ 8 =
      bit_or_shifted 16 (a * 256 + b) (c * 2 ^ 8) (omega arith) ∙ omega arith in
    ap (λ n. bit_or (bit_or n (c * 2 ^ 8)) d) first
    ∙ ap (λ n. bit_or n d) second
    ∙ bit_or_shifted 8 ((a * 256 + b) * 256 + c) d hd
    ∙ omega arith

header_size-size_header :
    (size : ℕ) (rest : Bytes) → size < 2 ^ 32 → header_size (size_header size ++ rest) ≡ size
unfolding header_size size_header
header_size-size_header size rest h =
    four_bytes (size / 2 ^ 24 % 2 ^ 8) (size / 2 ^ 16 % 2 ^ 8) (size / 2 ^ 8 % 2 ^ 8) (size % 2 ^ 8)
      (omega arith) (omega arith) (omega arith)
    ∙ omega arith

allowed-lt : (size : ℕ) → size_allowed size ≡ true → (0 < size) × (size < 2 ^ 32)
unfolding size_allowed
allowed-lt size h = ground arith

pub size_allowed_lem :
    (size : ℕ) → (0 < size) × (size ≤ maximum_frame_payload_bytes) → size_allowed size ≡ true
unfolding size_allowed
size_allowed_lem size h = ground arith

-- The bytes of a frame.
abbrev pub frame_bytes : Bytes → Bytes
frame_bytes payload = size_header (length payload) ++ payload

module _ ⦃k : Kernel⦄ where
  write_rest-Sends :
      (payload : Bytes) (r : Status × Output) (sent : Bytes)
      → Sends r sent
      → Sends (write_rest payload r) (sent ++ payload)
  write_rest-Sends payload r sent w =
      rw (w.succeeds, status_ok-success, sym w.sends)
        (write_exact-Sends payload r.1.acceptances r.1.sent w.willing)

  -- A payload that a frame may hold is sent behind its length, however `send` takes it.
  pub write_frame-Sends :
      (payload : Bytes) (out : Output)
      → size_allowed (length payload) ≡ true
      → is_willing out.acceptances ≡ true
      → Sends (write_frame payload out) (out.sent ++ frame_bytes payload)
  unfolding write_frame
  write_frame-Sends payload out good willing =
      let header = size_header (length payload) in
      let w =
        write_rest-Sends payload (write_exact header out.acceptances out.sent) (out.sent ++ header)
          (write_exact-Sends header out.acceptances out.sent willing) in
      rw (good, sym (append_assoc out.sent header payload)) w

  frame_behind_payload :
      (payload rest : Bytes)
      → size_allowed (length payload) ≡ true
      → frame_behind (length payload) (payload ++ rest) ≡ ((ok payload, kept payload), rest)
  unfolding frame_behind
  frame_behind_payload payload rest good =
      let there : leb (length payload) (length (payload ++ rest)) ≡ true =
        ground (arith, length-append payload rest) in
      rw (good, there, take-length_append payload rest, drop-length_append payload rest) refl

  pub frame_of-frame_bytes :
      (payload rest : Bytes)
      → size_allowed (length payload) ≡ true
      → frame_of (frame_bytes payload ++ rest) ≡ ((ok payload, kept payload), rest)
  unfolding frame_of size_header
  frame_of-frame_bytes payload rest good =
      let size = length payload in
      let none_missing : (length (frame_bytes payload ++ rest) == 0) ≡ false = ground arith in
      let not_short : ltb (length (frame_bytes payload ++ rest)) 4 ≡ false = ground arith in
      let read : header_size (take 4 (frame_bytes payload ++ rest)) ≡ size =
        header_size-size_header size [] (allowed-lt size good).1 in
      rw (none_missing, not_short, read) (frame_behind_payload payload rest good)

  -- What `write_frame` sends, `read_frame` reads. The payload has 1 to 4194304 bytes, no call of
  -- `send` fails or takes nothing, and no call of `recv` fails, however both split or interrupt the
  -- bytes. The write succeeds, and from the bytes that it sent and what follows them the payload is
  -- read, its first eleven bytes are kept, and what follows is left.
  pub read_frame-write_frame :
      (payload rest : Bytes) (calls : List Acceptance) (paces : List Pace)
      → size_allowed (length payload) ≡ true
      → is_willing calls ≡ true
      → is_steady paces ≡ true
      → let written = write_frame payload (record { acceptances = calls; sent = [] }) in
        (written.0 ≡ success)
        × Yields
            (read_frame (record { incoming = written.1.sent ++ rest; paces = paces }))
            (ok payload, kept payload)
            rest
  read_frame-write_frame payload rest calls paces good willing steady =
      let w = write_frame-Sends payload (record { acceptances = calls; sent = [] }) good willing in
      let frame = frame_of-frame_bytes payload rest good in
      let s : Input = record { incoming = frame_bytes payload ++ rest; paces = paces } in
      (
        w.succeeds,
        rw w.sends (
            Yields-eq (read_frame s) (read_frame-frame_of s steady) (ap (λ f. f.0) frame)
              (ap (λ f. f.1) frame)),
      )
