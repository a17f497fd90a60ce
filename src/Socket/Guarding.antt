-- ===== src/Socket/Guarding.antt =====
-- src/lib/ipc/unix_socket.cpp: what authorises the removal of a socket node.
use photospider_daemon.Base.{
  ℕ, ◌+◌, ◌≡◌, ◌≢◌, ◌≤◌, refl, ◌∙◌, zero-add, arith, Bool, true, false, List, [], ◌∷◌, ◌==◌,
  if◌then◌else◌, Bool-cases, inl, inr,
}
use photospider_daemon.Base.IdSets.{store}
use photospider_daemon.Socket.{
  SocketNodeIdentity, GuardState, empty, prepared, armed, consumed, SocketNodeGuard, arm,
  abandon_unverified_bind, Observed, remove, move_to,
}

-- The guards of a program, each by its number.
abbrev pub Guards : Type 0
Guards = ℕ → SocketNodeGuard

-- The operations on them; a destructor is a removal, and a move construction is a move assignment to
-- a guard that is empty.
pub data GuardStep : Type 0 where
  arming : ℕ → SocketNodeIdentity → GuardStep
  abandoning : ℕ → GuardStep
  removing : ℕ → Observed → GuardStep
  moving : (target source : ℕ) → Observed → GuardStep

-- One operation: whether it unlinks, and the guards behind it.
unfoldable pub step : GuardStep → Guards → Bool × Guards
step (arming i identity) gs = (false, store i (arm identity (gs i)) gs)
step (abandoning i) gs = (false, store i (abandon_unverified_bind (gs i)) gs)
step (removing i o) gs = ((remove o (gs i)).0, store i (remove o (gs i)).1 gs)
step (moving target source o) gs = if target == source then (false, gs) else (
  (move_to o (gs target) (gs source)).0,
  store target (move_to o (gs target) (gs source)).1.0
      (store source (move_to o (gs target) (gs source)).1.1 gs),
)

-- How many of the operations unlink.
unfoldable pub removals : List GuardStep → Guards → ℕ
removals [] gs = 0
removals (s ∷ steps) gs = (if (step s gs).0 then 1 else 0) + removals steps (step s gs).1

-- A guard that may come to unlink.
abbrev pub is_live : GuardState → Bool
is_live empty = false
is_live prepared = true
is_live armed = true
is_live consumed = false

abbrev Idle : Guards → Type 0
Idle gs = (i : ℕ) → is_live (gs i).state ≡ false

abbrev pub Single : Guards → Type 0
Single gs = (i j : ℕ) → is_live (gs i).state ≡ true → is_live (gs j).state ≡ true → i ≡ j

live-arm :
    (identity : SocketNodeIdentity) (g : SocketNodeGuard)
    → is_live (arm identity g).state ≡ is_live g.state
unfolding arm
live-arm identity g = ground arith

live-abandon :
    (g : SocketNodeGuard)
    → is_live (abandon_unverified_bind g).state ≡ true
    → is_live g.state ≡ true
unfolding abandon_unverified_bind
live-abandon g e = ground arith

unlinks-live : (o : Observed) (g : SocketNodeGuard) → (remove o g).0 ≡ true → is_live g.state ≡ true
unfolding remove
unlinks-live o g e = ground arith

-- Where the right to unlink of each guard comes from: two have never the same source, and an
-- operation that unlinks uses one up.
record Descends (gs : Guards) (next : Bool × Guards) : Type 0 where
  origin : ℕ → ℕ
  live : (i : ℕ) → is_live (next.1 i).state ≡ true → is_live (gs (origin i)).state ≡ true
  apart :
      (i j : ℕ)
      → is_live (next.1 i).state ≡ true
      → is_live (next.1 j).state ≡ true
      → origin i ≡ origin j
      → i ≡ j
  used : ℕ
  was_live : next.0 ≡ true → is_live (gs used).state ≡ true
  spent : (i : ℕ) → next.0 ≡ true → is_live (next.1 i).state ≡ true → origin i ≢ used

edit-Descends :
    (n : ℕ) (unlinked : Bool) (g : SocketNodeGuard) (gs : Guards)
    → (is_live g.state ≡ true → is_live (gs n).state ≡ true)
    → (unlinked ≡ true → (is_live (gs n).state ≡ true) × (is_live g.state ≡ false))
    → Descends gs (unlinked, store n g gs)
unfolding store
edit-Descends n unlinked g gs keeps uses = record {
  origin = λ i. i;
  live = λ i h. ground (arith, keeps);
  apart = λ i j h1 h2 e. e;
  used = n;
  was_live = λ h. (uses h).0;
  spent = λ i h1 h2 e. ground (arith, uses h1);
}

move-Descends :
    (target source : ℕ) (o : Observed) (gs : Guards)
    → (target == source) ≡ false
    → Descends gs (
      (move_to o (gs target) (gs source)).0,
      store target
          (move_to o (gs target) (gs source)).1.0
          (store source (move_to o (gs target) (gs source)).1.1 gs),
    )
unfolding move_to store
move-Descends target source o gs e = record {
  origin = λ i. if target == i then source else i;
  live = λ i h. ground arith;
  apart = λ i j h1 h2 same. ground arith;
  used = target;
  was_live = λ h. unlinks-live o (gs target) h;
  spent = λ i h1 h2 same. ground arith;
}

step-Descends : (s : GuardStep) (gs : Guards) → Descends gs (step s gs)
unfolding step remove
step-Descends (arming i identity) gs =
    edit-Descends i false (arm identity (gs i)) gs (λ h. ground (arith, live-arm identity (gs i)))
      (λ h. absurd (cc))
step-Descends (abandoning i) gs =
    edit-Descends i false (abandon_unverified_bind (gs i)) gs (live-abandon (gs i))
      (λ h. absurd (cc))
step-Descends (removing i o) gs =
    edit-Descends i (remove o (gs i)).0 (remove o (gs i)).1 gs (λ h. absurd (cc))
      (λ h. (unlinks-live o (gs i) h, refl))
step-Descends (moving target source o) gs = elim (Bool-cases (target == source)) [
  | inl e ↦ rw e (record {
    origin = λ i. i;
    live = λ i h. h;
    apart = λ i j h1 h2 same. same;
    used = target;
    was_live = λ h. absurd (cc);
    spent = λ i h1 h2 same. cc;
  })
  | inr e ↦ rw e (move-Descends target source o gs e)
]

removals-Idle : (steps : List GuardStep) (gs : Guards) → Idle gs → removals steps gs ≡ 0
unfolding removals
removals-Idle [] gs h = refl
removals-Idle (s ∷ steps) gs h =
    let d = step-Descends s gs in
    let none_left : Idle (step s gs).1 = λ i. ground (arith, d.live i, h (d.origin i)) in
    let rest = removals-Idle steps (step s gs).1 none_left in
    elim (Bool-cases (step s gs).0) [
      | inl e ↦ absurd (ground (arith, d.was_live e, h d.used))
      | inr e ↦ rw e (zero-add _ ∙ rest)
    ]

-- However guards are armed, abandoned, removed, destroyed and moved to one another, and whatever the
-- file system shows meanwhile, they unlink at most once, where one of them at most is prepared or
-- armed at first.
pub removals-le : (steps : List GuardStep) (gs : Guards) → Single gs → removals steps gs ≤ 1
unfolding removals
removals-le [] gs h = omega arith
removals-le (s ∷ steps) gs h =
    let d = step-Descends s gs in
    let next = (step s gs).1 in
    let single : Single next =
      λ i j hi hj. d.apart i j hi hj (h (d.origin i) (d.origin j) (d.live i hi) (d.live j hj)) in
    elim (Bool-cases (step s gs).0) [
      | inl e ↦
          let idle : Idle next = λ i. elim (Bool-cases (is_live (next i).state)) [
            | inl on ↦ absurd (d.spent i e on (h (d.origin i) d.used (d.live i on) (d.was_live e)))
            | inr off ↦ off
          ] in
          rw (e, removals-Idle steps next idle) (omega arith)
      | inr e ↦ rw e (omega (arith, removals-le steps next single))
    ]
