-- ===== src/Server/Accept/Bounds.antt =====
-- src/lib/server/server.cpp: the bounds of the handlers and of their records.
use photospider_daemon.Base.{
  ℕ, ◌+◌, ◌-◌, ◌≤◌, List, [], ◌∷◌, ◌++◌, length, leb, ◌≡◌, ap, subst, Bool-cases, inl, inr, arith,
  length-append,
}
use photospider_daemon.Server.Accept.{
  Stage, runs, published, released, Phase, accepting, reaped, Server, still_running, slots_joined,
  reap_finished_handlers, admit, stop, Step, reaping, admitting, stopping, publishing, releasing,
  registering, Reach, here, there,
}

-- A handler that has not released its slot.
abbrev holds : Stage → ℕ
holds runs = 1
holds published = 1
holds released = 0

abbrev pub slots_held : List Stage → ℕ
slots_held [] = 0
slots_held (stage ∷ rest) = holds stage + slots_held rest

pub slots_held-append : (xs ys : List Stage) → slots_held (xs ++ ys) ≡ slots_held xs + slots_held ys
slots_held-append [] ys = omega arith
slots_held-append (x ∷ xs) ys = omega (arith, slots_held-append xs ys)

abbrev pub record_bound : Phase → ℕ → ℕ
record_bound accepting maximum = maximum + 1
record_bound reaped maximum = maximum

pub record IsBounded (s : Server) : Type 0 where
  pub counted : s.active_handlers ≡ slots_held s.handlers
  pub admitted : s.active_handlers ≤ s.maximum_active_connections
  pub retained : length s.handlers ≤ record_bound s.phase s.maximum_active_connections

pub slots_still_running :
    (xs : List Stage)
    → (slots_held (still_running xs) ≡ slots_held xs - slots_joined xs)
      × (length (still_running xs) ≤ slots_held xs)
      × (slots_joined xs ≤ slots_held xs)
slots_still_running [] = (omega arith, omega arith, omega arith)
slots_still_running (runs ∷ xs) =
    let h = slots_still_running xs in (omega arith, omega arith, omega arith)
slots_still_running (published ∷ xs) =
    let h = slots_still_running xs in (omega arith, omega arith, omega arith)
slots_still_running (released ∷ xs) =
    let h = slots_still_running xs in (omega arith, omega arith, omega arith)

same_length : {a b c n bound : ℕ} → a ≡ b → b ≡ n → c ≡ n → a ≤ bound → c ≤ bound
same_length p q r h = omega arith

Step-IsBounded : {s t : Server} → IsBounded s → Step s t → IsBounded t
unfolding reap_finished_handlers admit stop
Step-IsBounded b (reaping s e) =
    let h = slots_still_running s.handlers in
    record {
      counted = omega (arith, b.counted);
      admitted = omega (arith, b.admitted);
      retained = omega (arith, b.counted, b.admitted);
    }
Step-IsBounded b (admitting s e) =
    let room : length s.handlers ≤ s.maximum_active_connections =
      subst (λ p. length s.handlers ≤ record_bound p s.maximum_active_connections) e b.retained in
    elim (Bool-cases (leb s.maximum_active_connections s.active_handlers)) [
      | inl full ↦
          rw full
            (record { counted = b.counted; admitted = b.admitted; retained = omega (arith, room) })
      | inr free ↦ rw free (record {
        counted = omega (arith, b.counted, slots_held-append s.handlers (runs ∷ []));
        admitted = ground arith;
        retained = omega (arith, room, length-append s.handlers (runs ∷ []));
      })
    ]
Step-IsBounded b (stopping s) = elim (Bool-cases s.stopping) [
  | inl up ↦ simp up b
  | inr down ↦
      simp down (record { counted = b.counted; admitted = b.admitted; retained = b.retained })
]
Step-IsBounded b (publishing s before behind e) =
    let was = slots_held-append before (runs ∷ behind) in
    let is = slots_held-append before (published ∷ behind) in
    let long = length-append before (runs ∷ behind) in
    let stays = length-append before (published ∷ behind) in
    record {
      counted = omega (arith, b.counted, ap slots_held e, was, is);
      admitted = b.admitted;
      retained = same_length (ap length e) long stays b.retained;
    }
Step-IsBounded b (releasing s before behind e) =
    let was = slots_held-append before (published ∷ behind) in
    let is = slots_held-append before (released ∷ behind) in
    let long = length-append before (published ∷ behind) in
    let stays = length-append before (released ∷ behind) in
    record {
      counted = omega (arith, b.counted, ap slots_held e, was, is);
      admitted = omega (arith, b.admitted);
      retained = same_length (ap length e) long stays b.retained;
    }
Step-IsBounded b (registering s descriptor) = record {
  counted = b.counted;
  admitted = b.admitted;
  retained = b.retained;
}

-- The counter of active handlers is the number of those that hold a slot, and it stays within the
-- configured bound; the records of handlers are at most one more, and no more than the bound behind
-- a reaping. Every sequence of steps of the accept loop, the handlers and `stop` keeps this.
pub Reach-IsBounded : {s t : Server} → IsBounded s → Reach s t → IsBounded t
Reach-IsBounded b here = b
Reach-IsBounded b (there t u r step) = Step-IsBounded (Reach-IsBounded b r) step
