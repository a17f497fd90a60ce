-- ===== src/Client/Calls.antt =====
-- src/lib/ipc/client.cpp: a call ends, and the connection that it leaves.
use photospider_daemon.Base.{
  ℕ, ◌+◌, ◌%◌, ◌^◌, Bool, true, false, not, ◌&&◌, if◌then◌else◌, [], Bytes, ◌==◌, some, ◌≡◌, refl,
  sym, subst, ◌⊎◌, inl, inr, Bool-cases,
}
use photospider_daemon.Base.Outcome.{ok, err, Outcome-cases}
use photospider_daemon.Kernel.{Kernel, Status, Result}
use photospider_daemon.Execution.{Values}
use photospider_daemon.Codec.Request.{Request, encode_request}
use photospider_daemon.Codec.Response.{Response, decode_response}
use photospider_daemon.Frame.{Output, Progress, Reads, write_frame}
use photospider_daemon.Frame.Termination.{Returns, read_frame-Returns}
use photospider_daemon.Client.{
  Connection, Link, reset, Called, understand, answered, await, exchange, call,
}

-- The request of a call: its id is the connection's.
abbrev pub numbered : Request → Connection → Request
numbered q c = record q { request_id = c.next_request_id }

-- The id of the next call: taken by a call that has a connection and an id left, whatever comes of
-- it, and by no other.
abbrev pub numbered_after : Connection → ℕ
numbered_after c =
    if c.valid && not (c.next_request_id == 0)
    then (c.next_request_id + 1) % 2 ^ 64
    else c.next_request_id

module _ ⦃k : Kernel⦄ {Value : Type 0} where
  -- The connection is lost, or a response came, or the request was not encoded.
  abbrev pub Keeps : Request → Result (Response Value) → Connection → Type 0
  Keeps q r c =
      (c.valid ≡ false)
      ⊎ (((x : Response Value) × (r ≡ ok x))
          ⊎ ((e : Status) × (encode_request q ≡ err e) × (r ≡ err e)))

  -- A call that has ended.
  pub record Settles (q : Request) (c : Connection) (called : Called Value) : Type 0 where
    pub result : Result (Response Value)
    pub after : Connection
    pub ends : called ≡ some (result, after)
    pub keeps : Keeps (numbered q c) result after
    pub numbers : after.next_request_id ≡ numbered_after c

  module _ ⦃vs : Values Value⦄ where
    understand-Keeps :
        (q : Request) (frame : Bytes) (c : Connection)
        → Keeps q (understand {Value = Value} q frame c).0 (understand {Value = Value} q frame c).1
          × ((understand {Value = Value} q frame c).1.next_request_id ≡ c.next_request_id)
    unfolding understand
    understand-Keeps q frame c =
        elim (Outcome-cases (decode_response {Value = Value} frame q.method q.request_id)) [
          | inl (r, e) ↦ rw (e, understand) (inr (inl (r, refl)), refl)
          | inr (status, e) ↦ rw (e, understand) (inl refl, refl)
        ]

    -- The same behind the choice of the id.
    abbrev Exchanged : Request → Connection → Called Value → Type 0
    Exchanged q c called =
        (x : Result (Response Value) × Connection) × (called ≡ some x)
        × Keeps q x.0 x.1
        × (x.1.next_request_id ≡ c.next_request_id)

    answered-Exchanged :
        (q : Request) (c : Connection) (r : Reads (Result Bytes × Progress))
        → Returns r
        → Exchanged q c (answered q c r)
    unfolding answered
    answered-Exchanged q c r (((ok frame, progress), after), e) =
        let u = understand-Keeps q frame c in rw e (understand q frame c, refl, u.0, u.1)
    answered-Exchanged q c r (((err status, progress), after), e) =
        rw e ((_, reset c), refl, inl refl, refl)

    await-Exchanged :
        (q : Request) (c : Connection) (link : Link) (written : Status × Output)
        → Exchanged q c (await q c link written)
    await-Exchanged q c link (status, out) = elim (Bool-cases (k.status_ok status)) [
      | inl sent ↦ rw sent (answered-Exchanged q c _ (read_frame-Returns _))
      | inr lost ↦ rw lost ((err status, reset c), refl, inl refl, refl)
    ]

    pub exchange_sent :
        (q : Request) (link : Link) (c : Connection) (payload : Bytes)
        → encode_request q ≡ ok payload
        → exchange {Value = Value} q link c
          ≡ await q c link
              (write_frame payload (record { acceptances = link.acceptances; sent = [] }))
    unfolding exchange
    exchange_sent q link c payload e = rw (e, exchange) refl

    exchange-Exchanged :
        (q : Request) (link : Link) (c : Connection) → Exchanged q c (exchange q link c)
    unfolding exchange
    exchange-Exchanged q link c = elim (Outcome-cases (encode_request q)) [
      | inl (payload, e) ↦ subst (Exchanged q c) (sym (exchange_sent q link c payload e)) (
          await-Exchanged q c link
            (write_frame payload (record { acceptances = link.acceptances; sent = [] })))
      | inr (status, e) ↦
          rw (e, exchange) ((err status, c), refl, inr (inr (status, refl, refl)), refl)
    ]

    call-Settles_at :
        (q : Request) (link : Link) (valid : Bool) (id : ℕ)
        → let c : Connection = record { valid = valid; next_request_id = id } in
          Settles q c (call q link c)
    unfolding call
    call-Settles_at q link false id = record {
      result = _;
      after = record { valid = false; next_request_id = id };
      ends = refl;
      keeps = inl refl;
      numbers = refl;
    }
    call-Settles_at q link true id =
        let c : Connection = record { valid = true; next_request_id = id } in
        elim (Bool-cases (id == 0)) [
          | inl last ↦ rw last (record {
            result = _;
            after = reset c;
            ends = refl;
            keeps = inl refl;
            numbers = rw last refl;
          })
          | inr more ↦
              let x =
                exchange-Exchanged (numbered q c) link
                  (record { valid = true; next_request_id = (id + 1) % 2 ^ 64 }) in
              rw more (record {
                result = x.0.0;
                after = x.0.1;
                ends = x.1;
                keeps = x.2;
                numbers = rw more x.3;
              })
        ]

    -- A call ends on every connection, whatever the peer sends and however the stream's calls
    -- split, interrupt or refuse. It leaves the connection valid only with a response or with a
    -- request that was not encoded. It takes its id exactly where it had a connection and an id
    -- left, also where it then failed: the next id is one more modulo 2 ^ 64, and otherwise the same.
    pub call-Settles : (q : Request) (link : Link) (c : Connection) → Settles q c (call q link c)
    call-Settles q link c = call-Settles_at q link c.valid c.next_request_id
