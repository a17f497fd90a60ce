-- ===== src/Socket/Descriptors/Settling.antt =====
-- What connecting and accepting leave open.
use photospider_daemon.Base.{
  ℕ, zero, suc, ◌+◌, ◌≤◌, ◌≡◌, refl, ◌∙◌, Bool, true, false, List, ◌∷◌, Bytes, String, arith,
  Bool-cases, inl, inr,
}
use photospider_daemon.Base.Outcome.{ok, err}
use photospider_daemon.Kernel.{Kernel, Status, Result, failure, status_ok-failure}
use photospider_daemon.Socket.{validate_unix_socket_path}
use photospider_daemon.Socket.Descriptors.{
  interrupted, unsupported, other, Reply, returned, failing, World, call, retry, close, keep_if_ok,
  write_flags, read_flags, set_close_on_exec, own_plain, obtain_plain, own_flagged, obtain,
}
use photospider_daemon.Socket.Descriptors.Ending.{spare, Ends, >>=-Ends, call-Ends, retry-Ends}
use photospider_daemon.Socket.Descriptors.Streams.{
  Platform, create_stream_socket, suppressed, configure_no_sigpipe, prepare_stream, connected,
  connect_prepared, connect_created, connect_unix_socket,
}

module _ ⦃k : Kernel⦄ where
  -- A success has opened its descriptor, close-on-exec, and nothing else; a failure has closed all
  -- that it had opened.
  abbrev pub Settled : List (ℕ × Bool) → Result ℕ → List (ℕ × Bool) → Type 0
  Settled base (ok d) t = t ≡ (d, true) ∷ base
  Settled base (err status) t = t ≡ base

  -- The descriptor is still open, and close-on-exec where the status is success.
  abbrev Flagged : ℕ → List (ℕ × Bool) → Status → List (ℕ × Bool) → Type 0
  Flagged d base status t =
      (flag : Bool) × (t ≡ (d, flag) ∷ base) × (k.status_ok status ≡ true → flag ≡ true)

  internal_refused : (message : Bytes) → k.status_ok (failure k.internal message) ≡ false
  internal_refused message = status_ok-failure k.internal message k.internal-ne-ok

  keep_if_ok-Ends :
      (n d : ℕ) (base : List (ℕ × Bool)) (status : Status) (w : World)
      → n ≤ spare w.script
      → Flagged d base status w.table
      → Ends n (Settled base) (keep_if_ok d status w)
  unfolding close
  keep_if_ok-Ends n d base status w h (flag, open_, set) = elim (Bool-cases (k.status_ok status)) [
    | inl e ↦ rw e (h, rw (open_, set e) refl)
    | inr e ↦ rw e (h, rw open_ (ground arith))
  ]

  write_flags-Ends :
      (n d : ℕ) (base : List (ℕ × Bool)) (reply : Reply) (w : World)
      → n ≤ spare w.script
      → w.table ≡ (d, false) ∷ base
      → Ends n (Flagged d base) (write_flags d reply w)
  unfolding write_flags
  write_flags-Ends n d base (failing errno text) w h e =
      (h, (false, e, λ ok_. cc (internal_refused _)))
  write_flags-Ends n d base (returned zero) w h e = (h, (true, rw e (ground arith), λ ok_. refl))
  write_flags-Ends n d base (returned (suc v)) w h e =
      (h, (false, e, λ ok_. cc (internal_refused _)))

  read_flags-Ends :
      (n d : ℕ) (base : List (ℕ × Bool)) (reply : Reply) (w : World)
      → suc n ≤ spare w.script
      → w.table ≡ (d, false) ∷ base
      → Ends n (Flagged d base) (read_flags d reply w)
  unfolding read_flags
  read_flags-Ends n d base (failing errno text) w h e =
      (omega arith, (false, e, λ ok_. cc (internal_refused _)))
  read_flags-Ends n d base (returned flags) w h e =
      >>=-Ends n n _ _ retry (write_flags d) w (retry-Ends n w h)
        (λ reply after left same. write_flags-Ends n d base reply after left (same ∙ e))

  set_close_on_exec-Ends :
      (n d : ℕ) (base : List (ℕ × Bool)) (w : World)
      → suc (suc n) ≤ spare w.script
      → w.table ≡ (d, false) ∷ base
      → Ends n (Flagged d base) (set_close_on_exec d w)
  unfolding set_close_on_exec
  set_close_on_exec-Ends n d base w h e =
      >>=-Ends (suc n) n _ _ retry (read_flags d) w (retry-Ends (suc n) w h)
        (λ reply after left same. read_flags-Ends n d base reply after left (same ∙ e))

  own_plain-Ends :
      (n : ℕ) (action : String) (reply : Reply) (w : World)
      → suc (suc n) ≤ spare w.script
      → Ends n (Settled w.table) (own_plain action reply w)
  unfolding own_plain
  own_plain-Ends n action (failing errno text) w h = (omega arith, refl)
  own_plain-Ends n action (returned d) w h =
      let started = record w { table = (d, false) ∷ w.table } in
      >>=-Ends n n _ _ (set_close_on_exec d) (keep_if_ok d) started
        (set_close_on_exec-Ends n d w.table started h refl)
        (λ status after left open_. keep_if_ok-Ends n d w.table status after left open_)

  obtain_plain-Ends :
      (n : ℕ) (action : String) (w : World)
      → n + 3 ≤ spare w.script
      → Ends n (Settled w.table) (obtain_plain action w)
  unfolding obtain_plain
  obtain_plain-Ends n action w h =
      >>=-Ends (suc (suc n)) n _ _ retry (own_plain action) w
        (retry-Ends (suc (suc n)) w (omega arith))
        (λ reply after left same. rw (← same) (own_plain-Ends n action reply after left))

  own_flagged-Ends :
      (n : ℕ) (action : String) (reply : Reply) (w : World)
      → n + 3 ≤ spare w.script
      → Ends n (Settled w.table) (own_flagged action reply w)
  unfolding own_flagged
  own_flagged-Ends n action (returned d) w h = (omega arith, refl)
  own_flagged-Ends n action (failing unsupported text) w h = obtain_plain-Ends n action w h
  own_flagged-Ends n action (failing interrupted text) w h = (omega arith, refl)
  own_flagged-Ends n action (failing other text) w h = (omega arith, refl)

  pub obtain-Ends :
      (n : ℕ) (flag : Bool) (action : String) (w : World)
      → n + 4 ≤ spare w.script
      → Ends n (Settled w.table) (obtain flag action w)
  unfolding obtain
  obtain-Ends n true action w h =
      >>=-Ends (n + 3) n _ _ retry (own_flagged action) w (retry-Ends (n + 3) w (omega arith))
        (λ reply after left same. rw (← same) (own_flagged-Ends n action reply after left))
  obtain-Ends n false action w h = obtain_plain-Ends n action w (omega arith)

  suppressed-Ends :
      (table : List (ℕ × Bool)) (n : ℕ) (reply : Reply) (w : World)
      → n ≤ spare w.script
      → w.table ≡ table
      → Ends n (λ status t. t ≡ table) (suppressed reply w)
  suppressed-Ends table n (returned zero) w h e = (h, e)
  suppressed-Ends table n (returned (suc v)) w h e = (h, e)
  suppressed-Ends table n (failing errno text) w h e = (h, e)

  connected-Ends :
      (n d : ℕ) (base : List (ℕ × Bool)) (reply : Reply) (w : World)
      → n ≤ spare w.script
      → w.table ≡ (d, true) ∷ base
      → Ends n (Settled base) (connected d reply w)
  unfolding close
  connected-Ends n d base (returned zero) w h e = (h, e)
  connected-Ends n d base (returned (suc v)) w h e = (h, rw e (ground arith))
  connected-Ends n d base (failing errno text) w h e = (h, rw e (ground arith))

  connect_prepared-Ends :
      (n : ℕ) (base : List (ℕ × Bool)) (r : Result ℕ) (w : World)
      → suc n ≤ spare w.script
      → Settled base r w.table
      → Ends n (Settled base) (connect_prepared r w)
  connect_prepared-Ends n base (err status) w h e = (omega arith, e)
  connect_prepared-Ends n base (ok d) w h e =
      >>=-Ends n n _ _ call (connected d) w (call-Ends n w h)
        (λ reply after left same. connected-Ends n d base reply after left (same ∙ e))

  module _ (platform : Platform) where
    configure-Ends :
        (n : ℕ) (w : World)
        → suc n ≤ spare w.script
        → Ends n (λ status t. t ≡ w.table) (configure_no_sigpipe platform w)
    unfolding configure_no_sigpipe
    configure-Ends n w h = elim (Bool-cases platform.no_sigpipe_option) [
      | inr e ↦ rw e (omega arith, refl)
      | inl e ↦
          rw e (>>=-Ends n n _ _ call suppressed w (call-Ends n w h) (suppressed-Ends w.table n))
    ]

    -- The stream that `prepare_stream` owns is the newest entry.
    pub prepare_stream-Ends :
        (n d : ℕ) (base : List (ℕ × Bool)) (w : World)
        → suc n ≤ spare w.script
        → w.table ≡ (d, true) ∷ base
        → Ends n (Settled base) (prepare_stream platform d w)
    unfolding prepare_stream
    prepare_stream-Ends n d base w h e =
        >>=-Ends n n _ _ (configure_no_sigpipe platform) (keep_if_ok d) w (configure-Ends n w h)
          (λ status after left same.
            keep_if_ok-Ends n d base status after left (true, same ∙ e, λ ok_. refl))

    connect_created-Ends :
        (n : ℕ) (base : List (ℕ × Bool)) (r : Result ℕ) (w : World)
        → suc (suc n) ≤ spare w.script
        → Settled base r w.table
        → Ends n (Settled base) (connect_created platform r w)
    connect_created-Ends n base (err status) w h e = (omega arith, e)
    connect_created-Ends n base (ok d) w h e =
        >>=-Ends (suc n) n _ _ (prepare_stream platform d) (connect_prepared) w
          (prepare_stream-Ends (suc n) d base w h e)
          (λ r after left settled. connect_prepared-Ends n base r after left settled)

    pub connect_unix_socket-Settled :
        (capacity : ℕ) (path : Bytes) (w : World)
        → 6 ≤ spare w.script
        → Ends 0 (Settled w.table) (connect_unix_socket platform capacity path w)
    unfolding connect_unix_socket create_stream_socket
    connect_unix_socket-Settled capacity path w h =
        elim (Bool-cases (k.status_ok (validate_unix_socket_path capacity path))) [
          | inr e ↦ rw e (omega arith, refl)
          | inl e ↦ rw e (
              >>=-Ends 2 0 _ _ (obtain platform.socket_flag "could not create local socket")
                (connect_created platform) w (obtain-Ends 2 _ _ w h)
                (λ r after left settled. connect_created-Ends 0 w.table r after left settled))
        ]
