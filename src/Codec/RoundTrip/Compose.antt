-- ===== src/Codec/RoundTrip/Compose.antt =====
-- Agreement of an encoder with a decoder, and its rules for sequences, guards and loops.
use photospider_daemon.Base.{
  ℕ, ◌+◌, ◌*◌, ◌≤◌, ◌<◌, ◌≡◌, refl, Bool, true, false, List, [], ◌∷◌, ◌++◌, Bytes, length,
  length-append, append_assoc, append-nil, arith, All, Option, none, some, inl, inr, subst, ◌∙◌,
}
use photospider_daemon.Base.Outcome.{ok, Outcome-cases}
use photospider_daemon.Protocol.{maximum_frame_payload_bytes}
use photospider_daemon.Codec.Failure.{CodecFailure}
use photospider_daemon.Codec.Encoder.{Encode, ◌>>◌, ensure, skip, each}
use photospider_daemon.Kernel.{Kernel}
use photospider_daemon.Codec.Encoder
use photospider_daemon.Codec.Decoder.{
  Decode, pure, ◌>>=◌, require, repeat, CountContract, require_count_fits,
}
use photospider_daemon.Codec.Fence.{count_fits_of_room}

-- What a successful encode appended: at least `m` bytes, within the frame bound, which the
-- decoder turns back into `a` where at least `s` bytes follow them.
pub record Written {A : Type 0} (d : Decode A) (a : A) (m s : ℕ) (p q : Bytes) : Type 0 where
  pub written : Bytes
  pub appended : q ≡ p ++ written
  pub long : m ≤ length written
  pub bounded : length p ≤ maximum_frame_payload_bytes → length q ≤ maximum_frame_payload_bytes
  pub reads : (rest : Bytes) → s ≤ length rest → d (written ++ rest) ≡ ok (a, rest)

pub record RoundTrip {A : Type 0} (e : Encode) (d : Decode A) (a : A) (m s : ℕ) : Type 0 where
  pub run : (p q : Bytes) → e p ≡ ok q → Written d a m s p q

pub bind-ok :
    {A B : Type 0} (d : Decode A) (f : A → Decode B) (x rest : Bytes) (a : A)
    → d x ≡ ok (a, rest)
    → (d >>= f) x ≡ f a rest
bind-ok d f x rest a h = rw (h, ◌>>=◌)

Written-bind :
    {A B : Type 0} {d : Decode A} (f : A → Decode B) {a : A} {b : B} {m n s t : ℕ} {p q r : Bytes}
    → s ≤ n + t
    → Written d a m s p q
    → Written (f a) b n t q r
    → Written (d >>= f) b (m + n) t p r
Written-bind {d = d} f {a = a} {p = p} fits u v = record {
  written = u.written ++ v.written;
  appended = rw (v.appended, u.appended) (append_assoc p u.written v.written);
  long = omega (arith, length-append u.written v.written, u.long, v.long);
  bounded = λ h. v.bounded (u.bounded h);
  reads = λ rest h.
      rw (append_assoc u.written v.written rest) (
        bind-ok d f (u.written ++ (v.written ++ rest)) (v.written ++ rest) a (
          u.reads (v.written ++ rest)
            (omega (arith, length-append v.written rest, v.long, h, fits))))
      ∙ v.reads rest h;
}

>>-eq-ok :
    (e g : Encode) (p r : Bytes) → (e >> g) p ≡ ok r → (q : Bytes) × (e p ≡ ok q) × (g q ≡ ok r)
>>-eq-ok e g p r h = elim (Outcome-cases (e p)) [
  | inl (q, eq) ↦ (q, eq, rw (eq, ◌>>◌) at h)
  | inr (x, eq) ↦ cc (rw (eq, ◌>>◌) at h)
]

-- An encode that went on past a check passed it.
pub ensure_passed :
    (test : Bool) (failure : CodecFailure) (g : Encode) (p : Bytes) {q : Bytes}
    → (ensure test failure >> g) p ≡ ok q
    → test ≡ true
unfolding ensure
ensure_passed true failure g p h = refl
ensure_passed false failure g p h = absurd (cc)

-- One field behind another.
pub RoundTrip-bind :
    {A B : Type 0} {e g : Encode} {d : Decode A} (f : A → Decode B) {a : A} {b : B} {m n s t : ℕ}
    → RoundTrip e d a m s
    → RoundTrip g (f a) b n t
    → s ≤ n + t
    → RoundTrip (e >> g) (d >>= f) b (m + n) t
RoundTrip-bind {e = e} {g = g} f x y fits = record {
  run = λ p r h.
      let (q, u, v) = >>-eq-ok e g p r h in Written-bind f fits (x.run p q u) (y.run q r v);
}

-- Nothing is written, nothing read.
pub RoundTrip-pure : {A : Type 0} {a : A} → RoundTrip skip (pure a) a 0 0
RoundTrip-pure {a = a} = record {
  run = λ p q h. record {
    written = [];
    appended = rw append-nil (cc);
    long = omega arith;
    bounded = λ le. subst (λ x. length x ≤ maximum_frame_payload_bytes) (cc) le;
    reads = λ rest _. refl;
  };
}

module _ {A : Type 0} {e : Encode} {a : A} {m s : ℕ} where
  -- Fewer bytes promised, more required.
  pub RoundTrip-weaken :
      {d : Decode A} (n t : ℕ) → n ≤ m → s ≤ t → RoundTrip e d a m s → RoundTrip e d a n t
  RoundTrip-weaken n t le ge x = record {
    run = λ p q h.
        let w = x.run p q h in
        record {
          written = w.written;
          appended = w.appended;
          long = omega (arith, w.long);
          bounded = w.bounded;
          reads = λ rest enough. w.reads rest (omega arith);
        };
  }

  -- What the decoder does behind the last byte, when it succeeds.
  pub RoundTrip-then :
      {B : Type 0} {d : Decode A} (f : A → Decode B) {b : B}
      → RoundTrip e d a m s
      → ((rest : Bytes) → f a rest ≡ ok (b, rest))
      → RoundTrip e (d >>= f) b m s
  RoundTrip-then {d = d} f x passes = record {
    run = λ p q h.
        let w = x.run p q h in
        record {
          written = w.written;
          appended = w.appended;
          long = w.long;
          bounded = w.bounded;
          reads = λ rest enough.
              bind-ok d f (w.written ++ rest) rest a (w.reads rest enough) ∙ passes rest;
        };
  }

  -- The last field of a value, which `f` completes.
  pub RoundTrip-last :
      {B : Type 0} {d : Decode A} (f : A → B)
      → RoundTrip e d a m s
      → RoundTrip e (d >>= λ x. pure (f x)) (f a) m s
  RoundTrip-last f x = RoundTrip-then _ x (λ rest. refl)

  -- A check by the encoder, whose outcome the rest may use.
  pub RoundTrip-ensure :
      {d : Decode A} (test : Bool) (failure : CodecFailure)
      → (test ≡ true → RoundTrip e d a m s)
      → RoundTrip (ensure test failure >> e) d a m s
  unfolding ensure
  RoundTrip-ensure true failure x = record { run = λ p q h. (x refl).run p q h }
  RoundTrip-ensure false failure x = record { run = λ p q h. absurd (cc) }

  pub RoundTrip-validate_encode :
      {d : Decode A} (v : Option CodecFailure)
      → (v ≡ none → RoundTrip e d a m s)
      → RoundTrip (Encoder.validate v >> e) d a m s
  unfolding Encoder.validate
  RoundTrip-validate_encode none x = record { run = λ p q h. (x refl).run p q h }
  RoundTrip-validate_encode (some failure) x = record { run = λ p q h. absurd (cc) }

  -- A check by the decoder, which passes.
  pub RoundTrip-require :
      (f : Unit {0} → Decode A) (test : Bool) (failure : CodecFailure)
      → test ≡ true
      → RoundTrip e (f tt) a m s
      → RoundTrip e (require test failure >>= f) a m s
  unfolding require
  RoundTrip-require f true failure passes x = record { run = λ p q h. x.run p q h }
  RoundTrip-require f false failure passes x = absurd (cc)

-- A loop of the encoder and the counted loop of the decoder.
pub RoundTrip-each :
    {A : Type 0} (put : A → Encode) (get : Decode A) (P : A → Type 0) (m t : ℕ)
    → ((x : A) → P x → RoundTrip (put x) get x m t)
    → (xs : List A) → All P xs
    → RoundTrip (each put xs) (repeat (length xs) get) xs (length xs * m) t
unfolding each repeat
RoundTrip-each put get P m t entry [] h =
    RoundTrip-weaken _ _ (omega arith) (omega arith) RoundTrip-pure
RoundTrip-each put get P m t entry (x ∷ xs) (h, hs) =
    RoundTrip-weaken _ _ (omega arith) (omega arith) (
      RoundTrip-bind _ (entry x h)
        (RoundTrip-last (◌∷◌ x) (RoundTrip-each put get P m t entry xs hs)) (omega arith))

module _ ⦃k : Kernel⦄ {A : Type 0} {e : Encode} {a : A} {m s : ℕ} where
  -- A count whose entries and suffix are there.
  pub RoundTrip-fence :
      (f : Unit {0} → Decode A) (count : ℕ) (contract : CountContract)
      → 0 < contract.minimum_entry_bytes
      → count * contract.minimum_entry_bytes + contract.required_suffix_bytes ≤ m + s
      → RoundTrip e (f tt) a m s
      → RoundTrip e (require_count_fits count contract >>= f) a m s
  unfolding require_count_fits
  RoundTrip-fence f count contract pos room x = record {
    run = λ p q h.
        let w = x.run p q h in
        record {
          written = w.written;
          appended = w.appended;
          long = w.long;
          bounded = w.bounded;
          reads = λ rest enough.
              rw
                (
                  count_fits_of_room count (length (w.written ++ rest)) contract pos
                      (omega (arith, length-append w.written rest, w.long)),
                  ◌>>=◌,
                )
                (w.reads rest enough);
        };
  }
