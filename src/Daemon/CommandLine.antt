-- ===== src/Daemon/CommandLine.antt =====
-- apps/photospiderd/main.cpp: a command line that spells options out is parsed as those options.
use photospider_daemon.Base.{
  ℕ, ◌-◌, ◌^◌, ◌<◌, Bool, true, false, not, ◌&&◌, List, [], ◌∷◌, ◌++◌, Bytes, length, ltb, ◌==◌,
  bytes_of, ◌≡◌, refl, ap, ◌∙◌, arith,
}
use photospider_daemon.Base.Outcome.{ok}
use photospider_daemon.Codec.Info.{bytes_eq}
use photospider_daemon.Codec.Status.{is_empty}
use photospider_daemon.Daemon.{
  Options, default_options, Stoull, positive_uint32, Field, socket, concurrency, jobs, sessions,
  connections, help_flag, gpu_flag, valued, classify, put_number, set_value, require_socket,
  parse_from, parse_options,
}

classify_socket : classify (bytes_of "--socket") ≡ valued socket
unfolding classify bytes_eq bytes_of
classify_socket = refl

classify_concurrency : classify (bytes_of "--max-concurrency") ≡ valued concurrency
unfolding classify bytes_eq bytes_of
classify_concurrency = refl

classify_jobs : classify (bytes_of "--max-jobs") ≡ valued jobs
unfolding classify bytes_eq bytes_of
classify_jobs = refl

classify_sessions : classify (bytes_of "--max-sessions") ≡ valued sessions
unfolding classify bytes_eq bytes_of
classify_sessions = refl

classify_connections : classify (bytes_of "--max-connections") ≡ valued connections
unfolding classify bytes_eq bytes_of
classify_connections = refl

classify_gpu : classify (bytes_of "--gpu") ≡ gpu_flag
unfolding classify bytes_eq bytes_of
classify_gpu = refl

classify_help : classify (bytes_of "--help") ≡ help_flag
unfolding classify bytes_eq bytes_of
classify_help = refl

-- Every bound is a positive `std::uint32_t`, and there is a socket unless help is asked for.
pub record IsOptions (o : Options) : Type 0 where
  pub concurrency_range : (0 < o.maximum_concurrency) × (o.maximum_concurrency < 2 ^ 32)
  pub jobs_range : (0 < o.maximum_jobs) × (o.maximum_jobs < 2 ^ 32)
  pub sessions_range : (0 < o.maximum_sessions) × (o.maximum_sessions < 2 ^ 32)
  pub connections_range : (0 < o.maximum_connections) × (o.maximum_connections < 2 ^ 32)
  pub reachable : (not o.help && is_empty o.socket_path) ≡ false

module _ (stoull : Stoull) (digits : ℕ → Bytes) where
  abbrev pub flag : Bool → Bytes → List Bytes
  flag true name = name ∷ []
  flag false name = []

  abbrev pub flags : Options → List Bytes
  flags o = flag o.gpu_enabled (bytes_of "--gpu") ++ flag o.help (bytes_of "--help")

  -- The options as a command line.
  abbrev pub arguments_of : Options → List Bytes
  arguments_of o =
      bytes_of "--socket"
      ∷ o.socket_path
      ∷ bytes_of "--max-concurrency"
      ∷ digits o.maximum_concurrency
      ∷ bytes_of "--max-jobs"
      ∷ digits o.maximum_jobs
      ∷ bytes_of "--max-sessions"
      ∷ digits o.maximum_sessions
      ∷ bytes_of "--max-connections"
      ∷ digits o.maximum_connections
      ∷ flags o

  -- `std::stoull` reads the whole of a text that spells a number below 2^64.
  abbrev pub Spells : Type 0
  Spells = (n : ℕ) → n < 2 ^ 64 → stoull (digits n) ≡ ok (n, length (digits n))

  module _ (spells : Spells) where
    positive_uint32-digits :
        (n : ℕ) (option : Bytes)
        → (0 < n) × (n < 2 ^ 32)
        → positive_uint32 stoull (digits n) option ≡ ok n
    unfolding positive_uint32
    positive_uint32-digits n option h =
        let read = spells n (omega (arith, h.1)) in
        let consumed : (length (digits n) == length (digits n)) ≡ true = ground arith in
        let positive : (n == 0) ≡ false = ground (arith, h.0) in
        let small : ltb (2 ^ 32 - 1) n ≡ false = ground (arith, h.1) in
        rw (read, consumed, positive, small) refl

    -- An option with a value, in front of others.
    parse-valued :
        (field : Field) (name value : Bytes) (o after : Options) (rest : List Bytes)
        → classify name ≡ valued field
        → set_value stoull field name value o ≡ ok after
        → parse_from stoull o (name ∷ value ∷ rest) ≡ parse_from stoull after rest
    unfolding parse_from
    parse-valued field name value o after rest c s = rw (c, s, parse_from) refl

    require_socket_lem :
        (o : Options) → (not o.help && is_empty o.socket_path) ≡ false → require_socket o ≡ ok o
    unfolding require_socket
    require_socket_lem o h = rw h refl

    parse-help :
        (o : Options)
        → parse_from stoull o (bytes_of "--help" ∷ []) ≡ require_socket (record o { help = true })
    unfolding parse_from
    parse-help o = rw (classify_help, parse_from) refl

    parse-gpu :
        (o : Options)
        → parse_from stoull o (bytes_of "--gpu" ∷ [])
          ≡ require_socket (record o { gpu_enabled = true })
    unfolding parse_from
    parse-gpu o = rw (classify_gpu, parse_from) refl

    parse-gpu_help :
        (o : Options)
        → parse_from stoull o (bytes_of "--gpu" ∷ bytes_of "--help" ∷ [])
          ≡ parse_from stoull (record o { gpu_enabled = true }) (bytes_of "--help" ∷ [])
    unfolding parse_from
    parse-gpu_help o = rw (classify_gpu, parse_from) refl

    -- The flags, behind the options with a value.
    parse-flags :
        (o : Options) (gpu help : Bool)
        → (not help && is_empty o.socket_path) ≡ false
        → parse_from stoull
            (record o { gpu_enabled = false; help = false })
            (flag gpu (bytes_of "--gpu") ++ flag help (bytes_of "--help"))
          ≡ ok (record o { gpu_enabled = gpu; help = help })
    unfolding parse_from
    parse-flags o false false h =
        require_socket_lem (record o { gpu_enabled = false; help = false }) h
    parse-flags o false true h =
        parse-help (record o { gpu_enabled = false; help = false })
        ∙ require_socket_lem (record o { gpu_enabled = false; help = true }) h
    parse-flags o true false h =
        parse-gpu (record o { gpu_enabled = false; help = false })
        ∙ require_socket_lem (record o { gpu_enabled = true; help = false }) h
    parse-flags o true true h =
        parse-gpu_help (record o { gpu_enabled = false; help = false })
        ∙ parse-help (record o { gpu_enabled = true; help = false })
        ∙ require_socket_lem (record o { gpu_enabled = true; help = true }) h

    -- A command line that spells out every option is parsed as those options: bounds that are
    -- positive and below 2^32, a socket path unless help is asked for, and numbers that
    -- `std::stoull` reads back.
    pub parse_options-arguments_of :
        (o : Options) → IsOptions o → parse_options stoull (arguments_of o) ≡ ok o
    unfolding set_value
    parse_options-arguments_of o h =
        let d = default_options in
        let o1 : Options = record d { socket_path = o.socket_path } in
        let o2 : Options = record o1 { maximum_concurrency = o.maximum_concurrency } in
        let o3 : Options = record o2 { maximum_jobs = o.maximum_jobs } in
        let o4 : Options = record o3 { maximum_sessions = o.maximum_sessions } in
        let o5 : Options = record o4 { maximum_connections = o.maximum_connections } in
        parse-valued socket (bytes_of "--socket") o.socket_path d o1 _ classify_socket refl
        ∙ parse-valued concurrency (bytes_of "--max-concurrency") (digits o.maximum_concurrency) o1
            o2 _ classify_concurrency
            (ap (put_number _) (positive_uint32-digits o.maximum_concurrency _ h.concurrency_range))
        ∙ parse-valued jobs (bytes_of "--max-jobs") (digits o.maximum_jobs) o2 o3 _ classify_jobs
            (ap (put_number _) (positive_uint32-digits o.maximum_jobs _ h.jobs_range))
        ∙ parse-valued sessions (bytes_of "--max-sessions") (digits o.maximum_sessions) o3 o4 _
            classify_sessions
            (ap (put_number _) (positive_uint32-digits o.maximum_sessions _ h.sessions_range))
        ∙ parse-valued connections (bytes_of "--max-connections") (digits o.maximum_connections) o4
            o5 (flags o) classify_connections
            (ap (put_number _) (positive_uint32-digits o.maximum_connections _ h.connections_range))
        ∙ parse-flags o o.gpu_enabled o.help h.reachable
