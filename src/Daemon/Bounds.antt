-- ===== src/Daemon/Bounds.antt =====
-- apps/photospiderd/main.cpp: what every parsed command line gives.
use photospider_daemon.Base.{
  ℕ, ◌^◌, ◌<◌, Bool, true, not, ◌&&◌, List, [], ◌∷◌, Bytes, ◌≡◌, refl, subst, ◌⊎◌, inl, inr,
  Bool-cases, arith,
}
use photospider_daemon.Base.Outcome.{Outcome, ok, err, Outcome-cases}
use photospider_daemon.Codec.Status.{is_empty}
use photospider_daemon.Daemon.{
  Options, default_options, Thrown, Stoull, accept_number, positive_uint32, Field, socket,
  concurrency, jobs, sessions, connections, Argument, help_flag, gpu_flag, unknown, valued,
  classify, put_number, set_value, require_socket, parse_from, parse_options,
}
use photospider_daemon.Daemon.CommandLine.{IsOptions}

abbrev IsPositive : ℕ → Type 0
IsPositive n = (0 < n) × (n < 2 ^ 32)

record IsConfigured (o : Options) : Type 0 where
  concurrency_range : IsPositive o.maximum_concurrency
  jobs_range : IsPositive o.maximum_jobs
  sessions_range : IsPositive o.maximum_sessions
  connections_range : IsPositive o.maximum_connections

accept_number-IsPositive :
    (text option : Bytes) (r : Outcome Thrown (ℕ × ℕ)) (n : ℕ)
    → accept_number text option r ≡ ok n
    → IsPositive n
accept_number-IsPositive text option (err thrown) n e = absurd (cc)
accept_number-IsPositive text option (ok (value, consumed)) n e = ground (arith, e)

same_ok : {a b : Options} → ◌≡◌ {A = Outcome Thrown Options} (ok a) (ok b) → a ≡ b
same_ok e = cc

refused :
    {thrown : Thrown} {o : Options}
    → ◌≡◌ {A = Outcome Thrown Options} (err thrown) (ok o)
    → IsOptions o
refused e = absurd (cc)

put_number-IsConfigured :
    (put : ℕ → Options) (x : Outcome Thrown ℕ) (after : Options)
    → ((n : ℕ) → x ≡ ok n → IsConfigured (put n))
    → put_number put x ≡ ok after
    → IsConfigured after
put_number-IsConfigured put (err thrown) after h e = absurd (cc)
put_number-IsConfigured put (ok n) after h e = subst IsConfigured (same_ok e) (h n refl)

module _ (stoull : Stoull) where
  set_value-IsConfigured :
      (field : Field) (name value : Bytes) (o after : Options)
      → IsConfigured o
      → set_value stoull field name value o ≡ ok after
      → IsConfigured after
  unfolding set_value positive_uint32
  set_value-IsConfigured socket name value o after h e = subst IsConfigured (same_ok e) (record {
    concurrency_range = h.concurrency_range;
    jobs_range = h.jobs_range;
    sessions_range = h.sessions_range;
    connections_range = h.connections_range;
  })
  set_value-IsConfigured concurrency name value o after h e =
      put_number-IsConfigured _ (positive_uint32 stoull value name) after
        (λ n p. record {
          concurrency_range = accept_number-IsPositive value name (stoull value) n p;
          jobs_range = h.jobs_range;
          sessions_range = h.sessions_range;
          connections_range = h.connections_range;
        })
        e
  set_value-IsConfigured jobs name value o after h e =
      put_number-IsConfigured _ (positive_uint32 stoull value name) after
        (λ n p. record {
          concurrency_range = h.concurrency_range;
          jobs_range = accept_number-IsPositive value name (stoull value) n p;
          sessions_range = h.sessions_range;
          connections_range = h.connections_range;
        })
        e
  set_value-IsConfigured sessions name value o after h e =
      put_number-IsConfigured _ (positive_uint32 stoull value name) after
        (λ n p. record {
          concurrency_range = h.concurrency_range;
          jobs_range = h.jobs_range;
          sessions_range = accept_number-IsPositive value name (stoull value) n p;
          connections_range = h.connections_range;
        })
        e
  set_value-IsConfigured connections name value o after h e =
      put_number-IsConfigured _ (positive_uint32 stoull value name) after
        (λ n p. record {
          concurrency_range = h.concurrency_range;
          jobs_range = h.jobs_range;
          sessions_range = h.sessions_range;
          connections_range = accept_number-IsPositive value name (stoull value) n p;
        })
        e

  require_socket-IsOptions :
      (o after : Options) → IsConfigured o → require_socket o ≡ ok after → IsOptions after
  unfolding require_socket
  require_socket-IsOptions o after h e = elim (Bool-cases (not o.help && is_empty o.socket_path)) [
    | inl missing ↦ absurd (ground (arith, missing, e))
    | inr there ↦
        let same : o ≡ after = same_ok (rw there at e) in
        subst IsOptions same (record {
          concurrency_range = h.concurrency_range;
          jobs_range = h.jobs_range;
          sessions_range = h.sessions_range;
          connections_range = h.connections_range;
          reachable = there;
        })
  ]

  -- The flags do not touch the bounds.
  flagged :
      (o : Options) (gpu help : Bool)
      → IsConfigured o
      → IsConfigured (record o { gpu_enabled = gpu; help = help })
  flagged o gpu help h = record {
    concurrency_range = h.concurrency_range;
    jobs_range = h.jobs_range;
    sessions_range = h.sessions_range;
    connections_range = h.connections_range;
  }

  Argument-cases :
      (a : Argument)
      → ((a ≡ help_flag) ⊎ (a ≡ gpu_flag))
        ⊎ ((a ≡ unknown) ⊎ ((field : Field) × (a ≡ valued field)))
  Argument-cases help_flag = inl (inl refl)
  Argument-cases gpu_flag = inl (inr refl)
  Argument-cases unknown = inr (inl refl)
  Argument-cases (valued field) = inr (inr (field, refl))

  parse_from-IsOptions :
      (arguments : List Bytes) (o after : Options)
      → IsConfigured o
      → parse_from stoull o arguments ≡ ok after
      → IsOptions after
  unfolding parse_from
  parse_from-IsOptions [] o after h e = require_socket-IsOptions o after h e
  parse_from-IsOptions (a ∷ []) o after h e = elim (Argument-cases (classify a)) [
    | inl (inl c) ↦
        require_socket-IsOptions (record o { help = true }) after (flagged o o.gpu_enabled true h)
          (rw (c, parse_from) at e)
    | inl (inr c) ↦
        require_socket-IsOptions (record o { gpu_enabled = true }) after (flagged o true o.help h)
          (rw (c, parse_from) at e)
    | inr (inl c) ↦ refused (rw (c, parse_from) at e)
    | inr (inr (field, c)) ↦ refused (rw (c, parse_from) at e)
  ]
  parse_from-IsOptions (a ∷ value ∷ behind) o after h e = elim (Argument-cases (classify a)) [
    | inl (inl c) ↦
        parse_from-IsOptions (value ∷ behind) (record o { help = true }) after
          (flagged o o.gpu_enabled true h) (rw (c, parse_from) at e)
    | inl (inr c) ↦
        parse_from-IsOptions (value ∷ behind) (record o { gpu_enabled = true }) after
          (flagged o true o.help h) (rw (c, parse_from) at e)
    | inr (inl c) ↦ refused (rw (c, parse_from) at e)
    | inr (inr (field, c)) ↦ elim (Outcome-cases (set_value stoull field a value o)) [
      | inr (thrown, x) ↦ refused (rw (c, x, parse_from) at e)
      | inl (next, x) ↦
          parse_from-IsOptions behind next after (set_value-IsConfigured field a value o next h x)
            (rw (c, x, parse_from) at e)
    ]
  ]

  -- Whatever command line is parsed, its bounds are positive and below 2^32, and it names a socket
  -- unless it asks for help, also where `std::stoull` is any function.
  pub parse_options-IsOptions :
      (arguments : List Bytes) (o : Options) → parse_options stoull arguments ≡ ok o → IsOptions o
  parse_options-IsOptions arguments o e =
      parse_from-IsOptions arguments default_options o
        (record {
          concurrency_range = (omega arith, omega arith);
          jobs_range = (omega arith, omega arith);
          sessions_range = (omega arith, omega arith);
          connections_range = (omega arith, omega arith);
        })
        e
