-- ===== src/Orchestration/Registry/Invariant.antt =====
-- The registry under any sequence of calls, with the records that workers and closing sessions
-- still share.
use photospider_daemon.Base.{
  ℕ, ◌≡◌, refl, ap, ◌∙◌, subst, ◌≤◌, ◌<◌, ◌^◌, Bool, true, false, ◌||◌, List, [], ◌∷◌, length, ◌==◌,
  ==_iff, Option, none, some, arith, Bool-cases, inl, inr, if◌then◌else◌,
}
use photospider_daemon.Base.IdSets.{member, store, Distinct}
use photospider_daemon.Protocol.{queued}
use photospider_daemon.Orchestration.Job.{JobRecord}
use photospider_daemon.Orchestration.Registry.{Registry, pop, pop_front, work}

-- Every id below it may have been given out.
abbrev pub limit : ℕ → ℕ
limit next_id = if next_id == 0 then 2 ^ 64 else next_id

pub some_of_else :
    {A : Type 0} (b : Bool) (o : Option A) (a : A) → (if b then none else o) ≡ some a → o ≡ some a
some_of_else true o a e = cc
some_of_else false o a e = e

module _ {R : Type 0} where
  -- `held` are the records that a worker has popped or a close has detached.
  pub record IsWellFormed (g : Registry R) (held : List ℕ) : Type 0 where
    pub bounded : length g.jobs ≤ g.maximum_jobs
    pub next_range : g.next_id < 2 ^ 64
    pub issued : (i : ℕ) → member i g.jobs ≡ true → (0 < i) × (i < limit g.next_id)
    pub own :
        (i : ℕ)
        → member i g.jobs ≡ true
        → (g.records i).id ≡ record { instance_id = g.instance_id; value = i }
    pub retained : (i : ℕ) → member i g.queue ≡ true → member i g.jobs ≡ true
    pub waiting : (i : ℕ) → member i g.queue ≡ true → (g.records i).state ≡ queued
    pub distinct : Distinct g.queue
    pub apart : (i : ℕ) → member i held ≡ true → member i g.queue ≡ false
    pub known_held : (i : ℕ) → member i held ≡ true → i < limit g.next_id

  abbrev pub empty : (maximum_jobs instance_id : ℕ) → (ℕ → JobRecord R) → Registry R
  empty maximum_jobs instance_id records = record {
    maximum_jobs = maximum_jobs;
    instance_id = instance_id;
    records = records;
    jobs = [];
    queue = [];
    next_id = 1;
    stopping = false;
  }

  pub empty-IsWellFormed :
      (maximum_jobs instance_id : ℕ) (records : ℕ → JobRecord R)
      → IsWellFormed (empty maximum_jobs instance_id records) []
  empty-IsWellFormed maximum_jobs instance_id records = record {
    bounded = omega arith;
    next_range = omega arith;
    issued = λ i h. ground arith;
    own = λ i h. ground arith;
    retained = λ i h. ground arith;
    waiting = λ i h. ground arith;
    distinct = _;
    apart = λ i h. ground arith;
    known_held = λ i h. ground arith;
  }

  pub work-IsWellFormed :
      (i : ℕ) (section : JobRecord R → JobRecord R) (g : Registry R) (held : List ℕ)
      → member i held ≡ true
      → ((r : JobRecord R) → (section r).id ≡ r.id)
      → IsWellFormed g held
      → IsWellFormed (work i section g) held
  unfolding work store
  work-IsWellFormed i section g held shared same w = record {
    bounded = w.bounded;
    next_range = w.next_range;
    issued = w.issued;
    own = λ j h. ground (arith, same (g.records i), w.own j h);
    retained = w.retained;
    waiting = λ j h. ground (arith, w.apart i shared, w.waiting j h);
    distinct = w.distinct;
    apart = w.apart;
    known_held = w.known_held;
  }

  popped-IsWellFormed :
      (j : ℕ) (rest : List ℕ) (g : Registry R) (held : List ℕ)
      → g.queue ≡ j ∷ rest
      → IsWellFormed g held
      → IsWellFormed (record g { queue = rest }) (j ∷ held)
  popped-IsWellFormed j rest g held q w =
      let was : (i : ℕ) → member i g.queue ≡ ((j == i) || member i rest) = λ i. ap (member i) q in
      let distinct : Distinct (j ∷ rest) = subst Distinct q w.distinct in
      record {
        bounded = w.bounded;
        next_range = w.next_range;
        issued = w.issued;
        own = w.own;
        retained = λ i h. w.retained i (ground (arith, was i));
        waiting = λ i h. w.waiting i (ground (arith, was i));
        distinct = distinct.1;
        apart = λ i h. elim (Bool-cases (j == i)) [
          | inl e ↦ subst (λ x. member x rest ≡ false) ((==_iff j i).0 e) distinct.0
          | inr e ↦ ground (arith, was i, w.apart i)
        ];
        known_held = λ i h. elim (Bool-cases (j == i)) [
          | inl e ↦ (w.issued i (w.retained i (was i ∙ rw e refl))).1
          | inr e ↦ w.known_held i (ground arith)
        ];
      }

  pop_front-IsWellFormed :
      (queue : List ℕ) (g after : Registry R) (i : ℕ) (held : List ℕ)
      → g.queue ≡ queue
      → pop_front queue g ≡ some (i, after)
      → IsWellFormed g held
      → IsWellFormed after (i ∷ held)
  unfolding pop_front
  pop_front-IsWellFormed [] g after i held q e w = cc
  pop_front-IsWellFormed (j ∷ rest) g after i held q e w =
      let same : ◌≡◌ {A = ℕ × Registry R} (j, record g { queue = rest }) (i, after) = cc in
      subst (λ p. IsWellFormed p.1 (p.0 ∷ held)) same (popped-IsWellFormed j rest g held q w)

  pub pop-IsWellFormed :
      (g after : Registry R) (i : ℕ) (held : List ℕ)
      → pop g ≡ some (i, after)
      → IsWellFormed g held
      → IsWellFormed after (i ∷ held)
  unfolding pop
  pop-IsWellFormed g after i held e w =
      pop_front-IsWellFormed g.queue g after i held refl (some_of_else g.stopping _ _ e) w
