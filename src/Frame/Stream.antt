-- ===== src/Frame/Stream.antt =====
-- src/lib/ipc/frame.cpp: reading a frame from a stream is reading it from the bytes that the peer
-- sends, however `recv` doles them out.
use photospider_daemon.Base.{
  ℕ, zero, suc, ◌+◌, ◌-◌, ◌≤◌, ◌<◌, Bool, true, false, List, [], ◌∷◌, ◌++◌, Bytes, length, take,
  drop, min, ltb, leb, ◌==◌, if◌then◌else◌, some, arith, ◌≡◌, refl, sym, ap, ◌∙◌, take-min,
  drop-min, length-drop, take_split, drop_split, length-append, length-take, drop_nil, append_assoc,
  append-nil, Bool-cases, inl, inr,
}
use photospider_daemon.Base.Outcome.{ok, err}
use photospider_daemon.Kernel.{Kernel, Status, Result}
use photospider_daemon.Frame.{
  Pace, up_to, interrupted, broken, Input, got, closed, again, failed, recv, Reads, closed_early,
  closed_cleanly, read_exact,
}

-- No call of `recv` fails.
unfoldable pub is_steady : List Pace → Bool
is_steady [] = true
is_steady (up_to k ∷ paces) = is_steady paces
is_steady (interrupted ∷ paces) = is_steady paces
is_steady (broken text ∷ paces) = false

-- What is left to take: bytes and paces.
abbrev pub measure : Input → ℕ
measure s = length s.incoming + length s.paces

-- The ways in which `recv` of `n` bytes ends, each with the stream that it leaves.
pub data Call (n : ℕ) (s : Input) : Type 0 where
  waits :
      (recv n s).0 ≡ again
      → (recv n s).1.incoming ≡ s.incoming
      → measure (recv n s).1 < measure s
      → (is_steady s.paces ≡ true → is_steady (recv n s).1.paces ≡ true)
      → Call n s
  ends :
      (recv n s).0 ≡ closed
      → s.incoming ≡ []
      → (recv n s).1.incoming ≡ []
      → (is_steady s.paces ≡ true → is_steady (recv n s).1.paces ≡ true)
      → Call n s
  gives :
      (m : ℕ)
      → (recv n s).0 ≡ got (take m s.incoming)
      → (recv n s).1.incoming ≡ drop m s.incoming
      → m ≤ n
      → m ≤ length s.incoming
      → measure (recv n s).1 < measure s
      → (is_steady s.paces ≡ true → is_steady (recv n s).1.paces ≡ true)
      → Call n s
  breaks : (text : Bytes) → (recv n s).0 ≡ failed text → is_steady s.paces ≡ false → Call n s

call :
    (n : ℕ) (incoming : Bytes) (paces : List Pace)
    → 0 < n
    → Call n (record { incoming = incoming; paces = paces })
unfolding recv is_steady
call n [] [] h = ends refl refl refl (λ p. p)
call n (b ∷ bs) [] h =
    gives (min n (length (b ∷ bs))) (ap got (sym (take-min n (b ∷ bs)))) (sym (drop-min n (b ∷ bs)))
      (omega arith) (omega arith) (omega (arith, length-drop n (b ∷ bs))) (λ p. p)
call n [] (up_to k ∷ paces) h = ends refl refl refl (λ p. p)
call n (b ∷ bs) (up_to k ∷ paces) h =
    let m = min n (k + 1) in
    gives (min m (length (b ∷ bs))) (ap got (sym (take-min m (b ∷ bs)))) (sym (drop-min m (b ∷ bs)))
      (omega arith) (omega arith) (omega (arith, length-drop m (b ∷ bs))) (λ p. p)
call n bytes (interrupted ∷ paces) h = waits refl refl (omega arith) (λ p. p)
call n bytes (broken text ∷ paces) h = breaks text refl refl

pub call_of : (n : ℕ) (s : Input) → 0 < n → Call n s
call_of n s h = call n s.incoming s.paces h

-- A loop that ends with `a` and leaves these bytes, with no failure to come.
pub record Yields {A : Type 0} (r : Reads A) (a : A) (left : Bytes) : Type 0 where
  pub after : Input
  pub returns : r ≡ some (a, after)
  pub leaves : after.incoming ≡ left
  pub stays : is_steady after.paces ≡ true

pub Yields-eq :
    {A : Type 0} (r : Reads A) {a b : A} {c d : Bytes} → Yields r a c → a ≡ b → c ≡ d → Yields r b d
Yields-eq r y p q = record {
  after = y.after;
  returns = y.returns ∙ ap (λ x. some (x, y.after)) p;
  leaves = y.leaves ∙ q;
  stays = y.stays;
}

-- `size` bytes of which some are there: the rest is a prefix of what comes.
abbrev pub whole_of : ℕ → Bytes → Bytes → Bytes
whole_of size bytes c = bytes ++ take (size - length bytes) c

length-more :
    (m : ℕ) (bytes c : Bytes) → m ≤ length c → length (bytes ++ take m c) ≡ length bytes + m
length-more m bytes c within = omega (arith, length-append bytes (take m c), length-take m c)

pub rest_full :
    (size : ℕ) (bytes c : Bytes) → size ≤ length bytes → drop (size - length bytes) c ≡ c
rest_full size bytes c h = ap (λ n. drop n c) zero_left
  where
    zero_left : size - length bytes ≡ 0
    zero_left = omega arith

module _ (size m : ℕ) (bytes c : Bytes) where
  less_left : m ≤ length c → size - length (bytes ++ take m c) ≡ size - length bytes - m
  less_left within = omega (arith, length-more m bytes c within)

  pub whole-more :
      m ≤ size - length bytes
      → m ≤ length c
      → whole_of size (bytes ++ take m c) (drop m c) ≡ whole_of size bytes c
  whole-more at_most within =
      append_assoc bytes (take m c) (take (size - length (bytes ++ take m c)) (drop m c))
      ∙ ap (λ n. bytes ++ (take m c ++ take n (drop m c))) (less_left within)
      ∙ ap (bytes ++◌) (take_split m (size - length bytes) c at_most)

  same_total :
      m ≤ length c → length (bytes ++ take m c) + length (drop m c) ≡ length bytes + length c
  same_total within = omega (arith, length-more m bytes c within, length-drop m c)

  pub within_size :
      m ≤ size - length bytes
      → m ≤ length c
      → length bytes ≤ size
      → length (bytes ++ take m c) ≤ size
  within_size at_most within fits = omega (arith, length-more m bytes c within)

  pub rest-more :
      m ≤ size - length bytes
      → m ≤ length c
      → drop (size - length (bytes ++ take m c)) (drop m c) ≡ drop (size - length bytes) c
  rest-more at_most within =
      ap (λ n. drop n (drop m c)) (less_left within) ∙ drop_split m (size - length bytes) c at_most

module _ (ends_at : ℕ → Status) where
  abbrev exact_out_of : ℕ → ℕ → Bytes → Result Bytes
  exact_out_of size total whole = if leb size total then ok whole else err (ends_at total)

  -- The `size` bytes, or the failure that a peer has closed after so many.
  abbrev pub exact_of : ℕ → Bytes → Bytes → Result Bytes
  exact_of size bytes c = exact_out_of size (length bytes + length c) (whole_of size bytes c)

  pub exact_full :
      (size : ℕ) (bytes c : Bytes) → length bytes ≡ size → exact_of size bytes c ≡ ok bytes
  exact_full size bytes c h =
      let there : leb size (length bytes + length c) ≡ true = ground (arith) in
      let none_left : size - length bytes ≡ 0 = omega arith in
      rw (there, none_left) (ap ok (append-nil bytes))

  pub exact_end :
      (size : ℕ) (bytes : Bytes)
      → length bytes < size
      → exact_of size bytes [] ≡ err (ends_at (length bytes))
  exact_end size bytes h =
      let short : leb size (length bytes + 0) ≡ false = ground arith in
      rw short (ap (λ n. err (ends_at n)) (omega arith))

  pub exact-more :
      (size m : ℕ) (bytes c : Bytes)
      → m ≤ size - length bytes
      → m ≤ length c
      → exact_of size (bytes ++ take m c) (drop m c) ≡ exact_of size bytes c
  exact-more size m bytes c at_most within =
      ap (λ n. exact_out_of size n (whole_of size (bytes ++ take m c) (drop m c)))
        (same_total size m bytes c within)
      ∙ ap (exact_out_of size (length bytes + length c)) (whole-more size m bytes c at_most within)

module _ ⦃k : Kernel⦄ where
  -- What `read_exact` answers where the peer has closed after so many bytes.
  abbrev pub exact_end_status : ℕ → Status
  exact_end_status n = if n == 0 then closed_cleanly else closed_early

  pub read_exact-run :
      (fuel size : ℕ) (bytes : Bytes) (s : Input)
      → length bytes ≤ size
      → measure s < fuel
      → is_steady s.paces ≡ true
      → Yields
          (read_exact fuel size bytes s)
          (exact_of exact_end_status size bytes s.incoming)
          (drop (size - length bytes) s.incoming)
  unfolding read_exact
  read_exact-run zero size bytes s within enough steady = absurd (omega arith)
  read_exact-run (suc fuel) size bytes s within enough steady =
      let rest = size - length bytes in
      let after = (recv rest s).1 in
      elim (Bool-cases (ltb (length bytes) size)) [
        | inr full ↦
            rw (full, read_exact)
              (record {
                after = s;
                returns =
                    ap (λ r. some (r, s))
                      (sym (exact_full exact_end_status size bytes s.incoming (ground arith)));
                leaves = sym (rest_full size bytes s.incoming (ground arith));
                stays = steady;
              })
        | inl short ↦
            rw (short, read_exact)
              (elim (call_of rest s (ground arith)) [
                | waits e same less stay ↦ rw e (
                    Yields-eq _
                      (read_exact-run fuel size bytes after within (omega arith) (stay steady))
                      (ap (exact_of exact_end_status size bytes) same) (ap (drop rest) same))
                | ends e empty same stay ↦ rw e (record {
                  after = after;
                  returns =
                      ap (λ r. some (r, after))
                        (sym (exact_end exact_end_status size bytes (ground arith))
                          ∙ ap (exact_of exact_end_status size bytes) (sym empty));
                  leaves = same ∙ sym (drop_nil rest) ∙ ap (drop rest) (sym empty);
                  stays = stay steady;
                })
                | gives m e left at_most at_least less stay ↦
                    let bytes' = bytes ++ take m s.incoming in
                    rw e (
                      Yields-eq _
                        (read_exact-run fuel size bytes' after
                          (within_size size m bytes s.incoming at_most at_least within)
                          (omega arith) (stay steady))
                        (ap (exact_of exact_end_status size bytes') left
                          ∙ exact-more exact_end_status size m bytes s.incoming at_most at_least)
                        (ap (drop (size - length bytes')) left
                          ∙ rest-more size m bytes s.incoming at_most at_least))
                | breaks text e bad ↦ absurd (cc)
              ])
      ]
