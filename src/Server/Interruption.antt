-- ===== src/Server/Interruption.antt =====
-- src/lib/server/server.cpp: the inventory of connections between the handlers and `stop`. A handler
-- registers its connection, tests the flag before each frame, and erases the connection before it
-- closes it; `stop` raises the flag and then shuts down what the inventory holds. An event is one
-- atomic act of one thread.
pub mod Swept
use photospider_daemon.Base.{ℕ, Bool, true, false, ◌&&◌, ◌||◌, not, List, [], ◌∷◌, if◌then◌else◌}
use photospider_daemon.Base.IdSets.{store}

-- Where the handler of a connection stands: before its registration, before the test of the flag, in
-- `read_frame` or behind it with the frame, behind its loop, and with its descriptor closed.
pub data Place : Type 0 where
  starting registered reading leaving ended : Place

pub record Floor : Type 0 where
  pub stopping : Bool
  -- `stop` has gone through the inventory.
  pub swept : Bool
  pub place : ℕ → Place
  pub active_connections : ℕ → Bool
  pub interrupted : ℕ → Bool

pub data Event : Type 0 where
  registers refuses tests serves breaks erases : ℕ → Event
  raises sweeps : Event

abbrev pub go : ℕ → Place → Floor → Floor
go i p s = record s { place = store i p s.place }

abbrev pub register_at : ℕ → Place → Floor → Floor
register_at i starting s = record (go i registered s) {
  active_connections = store i true s.active_connections;
}
register_at i _ s = s

-- The registration fails, and the handler closes the connection.
abbrev pub refuse_at : ℕ → Place → Floor → Floor
refuse_at i starting s = go i ended s
refuse_at i _ s = s

abbrev pub test_at : ℕ → Place → Floor → Floor
test_at i registered s = go i (if s.stopping then leaving else reading) s
test_at i _ s = s

-- A frame is read and answered, and the loop goes on.
abbrev pub serve_at : ℕ → Place → Floor → Floor
serve_at i reading s = go i registered s
serve_at i _ s = s

-- A read, a decoding or a write fails, or a shutdown was accepted.
abbrev pub break_at : ℕ → Place → Floor → Floor
break_at i reading s = go i leaving s
break_at i _ s = s

abbrev pub erase_at : ℕ → Place → Floor → Floor
erase_at i leaving s = record (go i ended s) {
  active_connections = store i false s.active_connections;
}
erase_at i _ s = s

-- An event that does not fit where its handler or `stop` stands does nothing.
unfoldable pub step : Event → Floor → Floor
step (registers i) s = register_at i (s.place i) s
step (refuses i) s = refuse_at i (s.place i) s
step (tests i) s = test_at i (s.place i) s
step (serves i) s = serve_at i (s.place i) s
step (breaks i) s = break_at i (s.place i) s
step (erases i) s = erase_at i (s.place i) s
step raises s = record s { stopping = true }
step sweeps s =
    if s.stopping && not s.swept
    then record s { swept = true; interrupted = λ i. s.active_connections i || s.interrupted i }
    else s

unfoldable pub run : List Event → Floor → Floor
run [] s = s
run (event ∷ events) s = run events (step event s)

-- No connection is registered and nothing is stopped.
abbrev pub quiet_floor : Floor
quiet_floor = record {
  stopping = false;
  swept = false;
  place = λ i. starting;
  active_connections = λ i. false;
  interrupted = λ i. false;
}
