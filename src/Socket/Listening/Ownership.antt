-- ===== src/Socket/Listening/Ownership.antt =====
-- src/lib/ipc/unix_socket.cpp: the node that a creation of a listener leaves or removes is its own.
use photospider_daemon.Base.{
  ℕ, Bool, true, false, not, ◌&&◌, Bytes, some, ◌≡◌, refl, sym, subst, ap, ◌⊎◌, inl, inr, arith,
  Bool-cases, Option-cases, bytes_of,
}
use photospider_daemon.Base.Outcome.{ok, err, Outcome-cases}
use photospider_daemon.Kernel.{Kernel, Status, failure}
use photospider_daemon.Socket.{
  validate_unix_socket_path, split_socket_path, SocketPathParts, SocketNodeIdentity, Stat,
  directory_matches, socket_matches, SocketNodeGuard, armed, prepared, is_armed, is_prepared,
  make_guard, arm, abandon_unverified_bind, remove,
}
use photospider_daemon.Codec.Status.{is_empty}
use photospider_daemon.Socket.Paths.{valid-nonempty, split_socket_path-named}
use photospider_daemon.Socket.Listening.{
  Existing, present, absent, unreadable, errno_status, early, give_up, unverified, Answers,
  Listening, start_listening, capture_node, bind_socket, check_existing, check_parent,
  open_parent_directory, create_unix_listener,
}

-- The node that was there was bound by this creation, and is a socket.
pub record Bound (answers : Answers) (l : Listening) (node : Stat) : Type 0 where
  pub new : answers.existing ≡ absent
  pub done : l.bound ≡ true
  pub seen : answers.node ≡ some node
  pub is_socket : node.is_socket ≡ true

-- A failure that unlinks nothing; a failure that may unlink what still is the bound node; or a
-- listener whose guard is armed with the bound node.
abbrev pub IsOwn : ⦃k : Kernel⦄ → Answers → Listening → Type 0
IsOwn answers l =
    (((e : Status) × (l.result ≡ err e)) × (l.unlinked ≡ false))
    ⊎ ((node : Stat) × Bound answers l node
        × ((((e : Status) × (l.result ≡ err e))
              × (l.unlinked ≡ true → socket_matches answers.observed.leaf node.identity ≡ true))
            ⊎ ((g : SocketNodeGuard) × (l.result ≡ ok g)
                × (g.state ≡ armed)
                × (g.node_identity ≡ node.identity)
                × (l.unlinked ≡ false))))

abandoned-unarmed :
    (g : SocketNodeGuard)
    → is_prepared g.state ≡ true
    → is_armed (abandon_unverified_bind g).state ≡ false
unfolding abandon_unverified_bind
abandoned-unarmed g e = simp e refl

arm-armed :
    (identity : SocketNodeIdentity) (g : SocketNodeGuard)
    → is_prepared g.state ≡ true
    → ((arm identity g).state ≡ armed) × ((arm identity g).node_identity ≡ identity)
unfolding arm
arm-armed identity g e = simp e (refl, refl)

Existing-cases :
    (e : Existing) → (e ≡ absent) ⊎ ((e ≡ present) ⊎ ((text : Bytes) × (e ≡ unreadable text)))
Existing-cases absent = inl refl
Existing-cases present = inr (inl refl)
Existing-cases (unreadable text) = inr (inr (text, refl))

new_guard-prepared :
    (parts : SocketPathParts) (identity : SocketNodeIdentity)
    → (not (is_empty parts.parent_path) && not (is_empty parts.leaf_name)) ≡ true
    → (make_guard true parts identity).state ≡ prepared
unfolding make_guard
new_guard-prepared parts identity e = rw e refl

module _ ⦃k : Kernel⦄ (answers : Answers) where
  by_case : {l : Listening} (m : Listening) → l ≡ m → IsOwn answers m → IsOwn answers l
  by_case m e = subst (IsOwn answers) (sym e)

  early-IsOwn : (status : Status) → IsOwn answers (early status)
  early-IsOwn status = inl ((status, refl), refl)

  -- A guard that is not armed removes nothing.
  unarmed-IsOwn :
      (status : Status) (bound : Bool) (g : SocketNodeGuard)
      → is_armed g.state ≡ false
      → IsOwn answers (give_up status bound g answers)
  unfolding remove
  unarmed-IsOwn status bound g e = inl ((status, refl), ground (arith, e))

  start_listening-IsOwn :
      (g : SocketNodeGuard) (node : Stat)
      → answers.existing ≡ absent
      → answers.node ≡ some node
      → node.is_socket ≡ true
      → g.state ≡ armed
      → g.node_identity ≡ node.identity
      → IsOwn answers (start_listening g answers)
  unfolding start_listening remove
  start_listening-IsOwn g node new seen is_socket ready same = elim (Option-cases answers.listen) [
    | inl fine ↦
        by_case (record { result = ok g; bound = true; unlinked = false })
          (rw (fine, start_listening) refl)
          (inr (
            node,
            record { new = new; done = refl; seen = seen; is_socket = is_socket },
            inr (g, refl, ready, same, refl),
          ))
    | inr (text, failed) ↦
        by_case (give_up (errno_status "could not listen locally" text) true g answers)
          (rw (failed, start_listening) refl)
          (inr (
            node,
            record { new = new; done = refl; seen = seen; is_socket = is_socket },
            inl (
              (_, refl),
              λ unlinked.
                  subst (λ i. socket_matches answers.observed.leaf i ≡ true) same
                    (ground (arith, unlinked)),
            ),
          ))
  ]

  unverified-IsOwn :
      (g : SocketNodeGuard) → g.state ≡ prepared → IsOwn answers (unverified g answers)
  unfolding abandon_unverified_bind
  unverified-IsOwn g e =
      unarmed-IsOwn _ true (abandon_unverified_bind g) (abandoned-unarmed g (ap is_prepared e))

  capture_node-IsOwn :
      (g : SocketNodeGuard)
      → answers.existing ≡ absent
      → g.state ≡ prepared
      → IsOwn answers (capture_node g answers)
  unfolding capture_node start_listening
  capture_node-IsOwn g new ready = elim (Option-cases answers.node) [
    | inl lost ↦
        by_case (unverified g answers) (rw (lost, capture_node) refl) (unverified-IsOwn g ready)
    | inr (node, seen) ↦
        elim (Bool-cases
          (node.is_socket && directory_matches answers.parent_path_again g.parent_identity)) [
            | inl proved ↦
                by_case (start_listening (arm node.identity g) answers)
                  (rw (seen, proved, capture_node) refl)
                  (start_listening-IsOwn (arm node.identity g) node new seen
                    (ground (arith, proved)) (arm-armed node.identity g (ap is_prepared ready)).0
                    (arm-armed node.identity g (ap is_prepared ready)).1)
            | inr unproved ↦
                by_case (unverified g answers) (rw (seen, unproved, capture_node) refl)
                  (unverified-IsOwn g ready)
          ]
  ]

  bind_socket-IsOwn :
      (g : SocketNodeGuard)
      → answers.existing ≡ absent
      → g.state ≡ prepared
      → IsOwn answers (bind_socket g answers)
  unfolding bind_socket capture_node start_listening
  bind_socket-IsOwn g new ready = elim (Option-cases answers.create_socket) [
    | inr (status, failed) ↦
        by_case (give_up status false g answers) (rw (failed, bind_socket) refl)
          (unarmed-IsOwn status false g (ap is_armed ready))
    | inl created ↦ elim (Option-cases answers.bind) [
      | inr (text, failed) ↦
          by_case (give_up (errno_status "could not bind local socket" text) false g answers)
            (rw (created, failed, bind_socket) refl) (unarmed-IsOwn _ false g (ap is_armed ready))
      | inl bound ↦
          by_case (capture_node g answers) (rw (created, bound, bind_socket) refl)
            (capture_node-IsOwn g new ready)
    ]
  ]

  check_existing-IsOwn :
      (parts : SocketPathParts) (parent : Stat)
      → (not (is_empty parts.parent_path) && not (is_empty parts.leaf_name)) ≡ true
      → IsOwn answers (check_existing parts parent answers)
  unfolding check_existing bind_socket capture_node start_listening
  check_existing-IsOwn parts parent named = elim (Existing-cases answers.existing) [
    | inl new ↦
        by_case (bind_socket (make_guard true parts parent.identity) answers)
          (rw (new, check_existing) refl)
          (bind_socket-IsOwn (make_guard true parts parent.identity) new
            (new_guard-prepared parts parent.identity named))
    | inr (inl old) ↦
        by_case (early (failure k.invalid_argument (bytes_of "listener path already exists")))
          (rw (old, check_existing) refl) (early-IsOwn _)
    | inr (inr (text, failed)) ↦
        by_case (early (errno_status "could not inspect socket path" text))
          (rw (failed, check_existing) refl) (early-IsOwn _)
  ]

  check_parent-IsOwn :
      (parts : SocketPathParts) (parent : Stat)
      → (not (is_empty parts.parent_path) && not (is_empty parts.leaf_name)) ≡ true
      → IsOwn answers (check_parent parts parent answers)
  unfolding check_parent
  check_parent-IsOwn parts parent named = elim (Bool-cases parent.is_directory) [
    | inr other ↦
        by_case (early (failure k.invalid_argument (bytes_of "socket parent is not a directory")))
          (simp other refl) (early-IsOwn _)
    | inl directory ↦ elim (Bool-cases (directory_matches answers.parent_path parent.identity)) [
      | inr moved ↦
          by_case
            (early (
              failure k.invalid_argument
                (bytes_of "socket parent directory identity is not stable")))
            (simp (directory, moved) refl) (early-IsOwn _)
      | inl stable ↦
          by_case (check_existing parts parent answers) (simp (directory, stable) refl)
            (check_existing-IsOwn parts parent named)
    ]
  ]

  open_parent_directory-IsOwn :
      (parts : SocketPathParts)
      → (not (is_empty parts.parent_path) && not (is_empty parts.leaf_name)) ≡ true
      → IsOwn answers (open_parent_directory parts answers)
  unfolding open_parent_directory check_parent check_existing bind_socket capture_node
      start_listening
  open_parent_directory-IsOwn parts named = elim (Option-cases answers.open_parent) [
    | inr (text, failed) ↦
        by_case (early (errno_status "could not open socket parent directory" text))
          (rw (failed, open_parent_directory) refl) (early-IsOwn _)
    | inl opened ↦ elim (Outcome-cases answers.parent_state) [
      | inr (text, failed) ↦
          by_case (early (errno_status "could not inspect socket parent directory" text))
            (rw (opened, failed, open_parent_directory) refl) (early-IsOwn _)
      | inl (parent, seen) ↦
          by_case (check_parent parts parent answers)
            (rw (opened, seen, open_parent_directory) refl) (check_parent-IsOwn parts parent named)
    ]
  ]

  -- A creation of a listener leaves or removes no node but its own. It succeeds only on a path where
  -- there was no node, with a guard that is armed with the socket that it has bound. Where it
  -- fails, it unlinks nothing, or only, behind its own bind on such a path, a socket with the
  -- identity that it has captured.
  pub create_unix_listener-IsOwn :
      (capacity : ℕ) (path : Bytes) (positive : Bool)
      → IsOwn answers (create_unix_listener capacity path positive answers)
  unfolding create_unix_listener
  create_unix_listener-IsOwn capacity path positive =
      let checked = validate_unix_socket_path capacity path in
      elim (Bool-cases (k.status_ok checked)) [
        | inr bad ↦ by_case (early checked) (rw bad refl) (early-IsOwn checked)
        | inl good ↦ elim (Bool-cases positive) [
          | inr none_pending ↦
              by_case
                (early (
                  failure k.invalid_argument
                    (bytes_of "Unix-domain listener backlog must be positive")))
                (rw (good, none_pending) refl) (early-IsOwn _)
          | inl pending ↦ elim (Outcome-cases (split_socket_path path)) [
            | inr (status, failed) ↦
                by_case (early status) (rw (good, pending, failed) refl) (early-IsOwn status)
            | inl (parts, split) ↦
                by_case (open_parent_directory parts answers) (rw (good, pending, split) refl) (
                  open_parent_directory-IsOwn parts
                    (split_socket_path-named path parts (valid-nonempty capacity path good) split))
          ]
        ]
      ]
