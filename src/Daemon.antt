-- ===== src/Daemon.antt =====
-- apps/photospiderd/main.cpp: the command line of the daemon. `std::stoull` is the caller's: it
-- gives a number and how many bytes it has read, or throws.
pub mod CommandLine
pub mod Bounds
pub mod Startup
pub mod Signals
use photospider_daemon.Base.{
  ℕ, ◌+◌, ◌-◌, ◌^◌, ◌<◌, Bool, true, false, not, ◌&&◌, ◌||◌, List, [], ◌∷◌, ◌++◌, Bytes, length,
  ltb, ◌==◌, if◌then◌else◌, bytes_of,
}
use photospider_daemon.Base.Outcome.{Outcome, ok, err}
use photospider_daemon.Codec.Info.{bytes_eq}
use photospider_daemon.Codec.Status.{is_empty}

pub record Options : Type 0 where
  pub socket_path : Bytes
  pub maximum_concurrency : ℕ
  pub maximum_jobs : ℕ
  pub maximum_sessions : ℕ
  pub maximum_connections : ℕ
  pub gpu_enabled : Bool
  pub help : Bool

abbrev pub default_options : Options
default_options = record {
  socket_path = [];
  maximum_concurrency = 1;
  maximum_jobs = 1024;
  maximum_sessions = 128;
  maximum_connections = 64;
  gpu_enabled = false;
  help = false;
}

-- `std::invalid_argument` with its text, and `std::out_of_range`.
pub data Thrown : Type 0 where
  invalid_argument : Bytes → Thrown
  out_of_range : Thrown

-- `std::stoull(text, &consumed, 10)`.
abbrev pub Stoull : Type 0
Stoull = Bytes → Outcome Thrown (ℕ × ℕ)

abbrev pub accept_number : Bytes → Bytes → Outcome Thrown (ℕ × ℕ) → Outcome Thrown ℕ
accept_number text option (err thrown) = err thrown
accept_number text option (ok (value, consumed)) =
    if not (consumed == length text) || (value == 0 || ltb (2 ^ 32 - 1) value)
    then err (invalid_argument (option ++ bytes_of " requires a positive uint32"))
    else ok value

unfoldable pub positive_uint32 : Stoull → Bytes → Bytes → Outcome Thrown ℕ
positive_uint32 stoull text option = accept_number text option (stoull text)

-- The options that take a value, and the spellings of all.
pub data Field : Type 0 where
  socket concurrency jobs sessions connections : Field

pub data Argument : Type 0 where
  help_flag gpu_flag unknown : Argument
  valued : Field → Argument

unfoldable pub classify : Bytes → Argument
classify a =
    if bytes_eq a (bytes_of "--help")
    then help_flag
    else if bytes_eq a (bytes_of "--gpu")
    then gpu_flag
    else if bytes_eq a (bytes_of "--socket")
    then valued socket
    else if bytes_eq a (bytes_of "--max-concurrency")
    then valued concurrency
    else if bytes_eq a (bytes_of "--max-jobs")
    then valued jobs
    else if bytes_eq a (bytes_of "--max-sessions")
    then valued sessions
    else if bytes_eq a (bytes_of "--max-connections")
    then valued connections
    else unknown

abbrev pub put_number : (ℕ → Options) → Outcome Thrown ℕ → Outcome Thrown Options
put_number put (err thrown) = err thrown
put_number put (ok n) = ok (put n)

unfoldable pub set_value : Stoull → Field → Bytes → Bytes → Options → Outcome Thrown Options
set_value stoull socket a value o = ok (record o { socket_path = value })
set_value stoull concurrency a value o =
    put_number (λ n. record o { maximum_concurrency = n }) (positive_uint32 stoull value a)
set_value stoull jobs a value o =
    put_number (λ n. record o { maximum_jobs = n }) (positive_uint32 stoull value a)
set_value stoull sessions a value o =
    put_number (λ n. record o { maximum_sessions = n }) (positive_uint32 stoull value a)
set_value stoull connections a value o =
    put_number (λ n. record o { maximum_connections = n }) (positive_uint32 stoull value a)

-- The check behind the loop.
unfoldable pub require_socket : Options → Outcome Thrown Options
require_socket o =
    if not o.help && is_empty o.socket_path
    then err (invalid_argument (bytes_of "--socket PATH is required"))
    else ok o

-- The loop of `parse_options`, on the arguments behind the program's name.
unfoldable pub parse_from : Stoull → Options → List Bytes → Outcome Thrown Options
parse_from stoull o [] = require_socket o
parse_from stoull o (a ∷ []) = elim (classify a) [
  | help_flag ↦ parse_from stoull (record o { help = true }) []
  | gpu_flag ↦ parse_from stoull (record o { gpu_enabled = true }) []
  | unknown ↦ err (invalid_argument (bytes_of "unknown option: " ++ a))
  | valued field ↦ err (invalid_argument (a ++ bytes_of " requires a value"))
]
parse_from stoull o (a ∷ value ∷ behind) = elim (classify a) [
  | help_flag ↦ parse_from stoull (record o { help = true }) (value ∷ behind)
  | gpu_flag ↦ parse_from stoull (record o { gpu_enabled = true }) (value ∷ behind)
  | unknown ↦ err (invalid_argument (bytes_of "unknown option: " ++ a))
  | valued field ↦ elim (set_value stoull field a value o) [
    | err thrown ↦ err thrown
    | ok after ↦ parse_from stoull after behind
  ]
]

abbrev pub parse_options : Stoull → List Bytes → Outcome Thrown Options
parse_options stoull arguments = parse_from stoull default_options arguments
