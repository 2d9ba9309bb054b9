-- ===== src/Direwolf/Connection.antt =====
-- The connection flags and the decoder's buffer over a run of the client.
use rfmpd.Base.{List, [], arith, refl, ◌∷◌, ◌≡◌}
use rfmpd.Direwolf.{
  DirewolfClient, connect, close, receive, read_timeout, read_error, read_bytes, Event, dial_failed,
  dialed, cancelled, read, step, run,
}

-- `IsConnected` reports exactly whether there is a connection.
abbrev pub IsConsistent : DirewolfClient → Type 0
IsConsistent c = c.connected ≡ c.conn

pub step-IsConsistent :
    (c : DirewolfClient) (e : Event) → IsConsistent c → IsConsistent (step c e).0
unfolding step connect close receive
step-IsConsistent c dial_failed h = h
step-IsConsistent c dialed h = ground arith
step-IsConsistent c cancelled h = refl
step-IsConsistent c (read read_timeout) h = ground arith
step-IsConsistent c (read read_error) h = ground arith
step-IsConsistent c (read (read_bytes bs)) h = ground arith

-- After any sequence of dials, reads and cancellations the `connected` flag that `IsConnected`
-- reports agrees with the connection that `SendFrame` writes to.
run-IsConsistent :
    (es : List Event) (c : DirewolfClient) → IsConsistent c → IsConsistent (run c es).0
unfolding run
run-IsConsistent [] c h = h
run-IsConsistent (e ∷ es) c h = run-IsConsistent es (step c e).0 (step-IsConsistent c e h)
