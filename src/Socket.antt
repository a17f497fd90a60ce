-- ===== src/Socket.antt =====
-- src/lib/ipc/unix_socket.cpp: socket paths, the guard of the bound socket's node, the listener
-- and the acceptance of peers. What the system calls answer is an argument.
pub mod Paths
pub mod Guarding
pub mod Descriptors
pub mod Listening
use photospider_daemon.Base.{
  ℕ, suc, ◌+◌, ◌-◌, Bool, true, false, not, ◌&&◌, ◌||◌, List, [], ◌∷◌, ◌++◌, Bytes, length, take,
  drop, leb, ◌==◌, if◌then◌else◌, Option, none, some, bytes_of, String,
}
use photospider_daemon.Base.Outcome.{Outcome, ok, err}
use photospider_daemon.Kernel.{Kernel, Status, Result, success, failure}
use photospider_daemon.Codec.Info.{bytes_eq}
use photospider_daemon.Codec.Status.{is_empty}

-- `path.find('\0') != npos`.
unfoldable pub has_zero : Bytes → Bool
has_zero [] = false
has_zero (b ∷ bs) = b == 0 || has_zero bs

-- `path.find_last_of('/')`.
unfoldable pub last_separator : Bytes → Option ℕ
last_separator [] = none
last_separator (b ∷ bs) = elim (last_separator bs) [
  | some i ↦ some (suc i)
  | none ↦ if b == 47 then some 0 else none
]

pub record SocketPathParts : Type 0 where
  pub parent_path : Bytes
  pub leaf_name : Bytes

abbrev pub parts_at : Bytes → Option ℕ → SocketPathParts
parts_at path none = record { parent_path = 46 ∷ []; leaf_name = path }
parts_at path (some i) = record {
  parent_path = if i == 0 then 47 ∷ [] else take i path;
  leaf_name = drop (i + 1) path;
}

module _ ⦃k : Kernel⦄ where
  -- `capacity` is `sizeof(sockaddr_un::sun_path)`.
  unfoldable pub validate_unix_socket_path : ℕ → Bytes → Status
  validate_unix_socket_path capacity path =
      if is_empty path || (leb capacity (length path) || has_zero path)
      then failure k.invalid_argument (bytes_of "Unix-domain socket path is invalid")
      else success

  abbrev pub check_leaf : SocketPathParts → Result SocketPathParts
  check_leaf parts =
      if is_empty parts.leaf_name
        || (bytes_eq parts.leaf_name (46 ∷ []) || bytes_eq parts.leaf_name (46 ∷ 46 ∷ []))
      then err (failure k.invalid_argument (bytes_of "Unix-domain socket leaf is invalid"))
      else ok parts

  unfoldable pub split_socket_path : Bytes → Result SocketPathParts
  split_socket_path path = check_leaf (parts_at path (last_separator path))

pub record SocketNodeIdentity : Type 0 where
  pub device : ℕ
  pub inode : ℕ

-- What `stat` and its kin tell of a node.
pub record Stat : Type 0 where
  pub is_directory : Bool
  pub is_socket : Bool
  pub identity : SocketNodeIdentity

abbrev pub same_identity : Stat → SocketNodeIdentity → Bool
same_identity state identity =
    (state.identity.device == identity.device) && (state.identity.inode == identity.inode)

-- `parent_path_matches`, and the like checks of a node: `none` is a call that fails.
abbrev pub directory_matches : Option Stat → SocketNodeIdentity → Bool
directory_matches none identity = false
directory_matches (some state) identity = state.is_directory && same_identity state identity

abbrev pub socket_matches : Option Stat → SocketNodeIdentity → Bool
socket_matches none identity = false
socket_matches (some state) identity = state.is_socket && same_identity state identity

pub data GuardState : Type 0 where
  empty prepared armed consumed : GuardState

pub record SocketNodeGuard : Type 0 where
  pub parent_valid : Bool
  pub parts : SocketPathParts
  pub parent_identity : SocketNodeIdentity
  pub node_identity : SocketNodeIdentity
  pub state : GuardState

abbrev pub no_identity : SocketNodeIdentity
no_identity = record { device = 0; inode = 0 }

unfoldable pub make_guard : Bool → SocketPathParts → SocketNodeIdentity → SocketNodeGuard
make_guard parent_valid parts identity = record {
  parent_valid = parent_valid;
  parts = parts;
  parent_identity = identity;
  node_identity = no_identity;
  state =
      if parent_valid && (not (is_empty parts.parent_path) && not (is_empty parts.leaf_name))
      then prepared
      else empty;
}

abbrev pub is_prepared : GuardState → Bool
is_prepared prepared = true
is_prepared _ = false

abbrev pub is_armed : GuardState → Bool
is_armed armed = true
is_armed _ = false

unfoldable pub arm : SocketNodeIdentity → SocketNodeGuard → SocketNodeGuard
arm identity g =
    if is_prepared g.state then record g { node_identity = identity; state = armed } else g

unfoldable pub abandon_unverified_bind : SocketNodeGuard → SocketNodeGuard
abandon_unverified_bind g = if is_prepared g.state then record g { state = consumed } else g

-- What `remove` observes: the fixed parent, the parent's path, and the leaf under the parent.
pub record Observed : Type 0 where
  pub fixed_parent : Option Stat
  pub parent_path : Option Stat
  pub leaf : Option Stat

-- `remove`, and whether it unlinks the leaf.
unfoldable pub remove : Observed → SocketNodeGuard → Bool × SocketNodeGuard
remove o g = (
  (is_armed g.state && g.parent_valid)
      && ((directory_matches o.fixed_parent g.parent_identity
            && directory_matches o.parent_path g.parent_identity)
          && socket_matches o.leaf g.node_identity),
  record g { state = consumed },
)

-- Move assignment to another guard: the removal of the target, the target and the source.
unfoldable pub move_to :
    Observed → SocketNodeGuard → SocketNodeGuard → Bool × (SocketNodeGuard × SocketNodeGuard)
move_to o target source =
    ((remove o target).0, (source, record source { parent_valid = false; state = empty }))
