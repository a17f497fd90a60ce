-- ===== src/Socket/Paths.antt =====
-- src/lib/ipc/unix_socket.cpp: the parts of a valid socket path.
use photospider_daemon.Base.{
  ℕ, zero, suc, [], ◌∷◌, ◌==◌, ◌≢◌, true, false, not, ◌&&◌, Bytes, Option, none, some, ◌≡◌, refl,
  arith, bytes_of,
}
use photospider_daemon.Base.Outcome.{ok}
use photospider_daemon.Kernel.{Kernel, status_ok-failure}
use photospider_daemon.Codec.Status.{is_empty}
use photospider_daemon.Socket.{
  validate_unix_socket_path, split_socket_path, SocketPathParts, parts_at, check_leaf,
  last_separator,
}

parent-named :
    (path : Bytes) (i : Option ℕ) → path ≢ [] → is_empty (parts_at path i).parent_path ≡ false
parent-named path none h = refl
parent-named path (some zero) h = refl
parent-named [] (some (suc i)) h = absurd (h refl)
parent-named (b ∷ bs) (some (suc i)) h =
    let inside : (suc i == 0) ≡ false = ground arith in rw inside refl

check_leaf-named :
    ⦃k : Kernel⦄ (p parts : SocketPathParts)
    → is_empty p.parent_path ≡ false
    → check_leaf p ≡ ok parts
    → (not (is_empty parts.parent_path) && not (is_empty parts.leaf_name)) ≡ true
check_leaf-named p parts h e = ground (arith, h, e)

pub valid-nonempty :
    ⦃k : Kernel⦄ (capacity : ℕ) (path : Bytes)
    → k.status_ok (validate_unix_socket_path capacity path) ≡ true
    → path ≢ []
unfolding validate_unix_socket_path
valid-nonempty ⦃k = k⦄ capacity [] valid e = absurd (
    ground (
      arith,
      valid,
      status_ok-failure k.invalid_argument (bytes_of "Unix-domain socket path is invalid")
          k.invalid_argument-ne-ok,
    ))
valid-nonempty capacity (b ∷ bs) valid e = absurd (cc)

-- A path that was split has a parent and a leaf.
pub split_socket_path-named :
    ⦃k : Kernel⦄ (path : Bytes) (parts : SocketPathParts)
    → path ≢ []
    → split_socket_path path ≡ ok parts
    → (not (is_empty parts.parent_path) && not (is_empty parts.leaf_name)) ≡ true
unfolding split_socket_path
split_socket_path-named path parts h e =
    check_leaf-named (parts_at path (last_separator path)) parts
      (parent-named path (last_separator path) h) e
