-- ===== src/System/Invariant.antt =====
-- What holds of the running node after every list of events.
use rfmpd.Base.{
  Bool-cases, Bytes, List, Option, Option-cases, [], arith, inl, inr, none, refl, some, subst, ℕ,
  ◌∙◌, ◌∷◌, ◌≡◌,
}
use rfmpd.Wire.{Proto}
use rfmpd.Config.{Config}
use rfmpd.Direwolf
use rfmpd.Storage.Statements.{Evolves, Evolves-refl, Evolves-trans, migrate-Evolves}
use rfmpd.Daemon.{Json, Daemon, cleanup}
use rfmpd.Daemon.Handlers.{handle_received}
use rfmpd.Daemon.Sending.{broadcast_svec}
use rfmpd.Daemon.Transmit.{transmit_step}
use rfmpd.Daemon.Evolution.{handle_received-Evolves, broadcast_svec-Evolves}
use rfmpd.Daemon.Loops.{daemon_after, cleanup-Evolves, transmit_step-Evolves}
use rfmpd.Daemon.Identity.{
  identity, cleanup-identity, handle_received-identity, broadcast_svec-identity,
  transmit_step-identity,
}
use rfmpd.Api.{Server, new_daemon}
use rfmpd.System.{
  start, Event, modem, transmission, sync, cleaning, request, restarted, with_daemon, set_daemon,
  receive_all, modem_step, step, run,
}
use rfmpd.System.Changes.{
  IsSound, Advances, Advances-refl, Advances-trans, with_daemon-Advances, with_modem-Advances,
}
use rfmpd.System.Serving.{serve-Advances}

module _ (json : Json) (proto : Proto) where
  receive_all-Evolves :
      (now : ℕ) (delay : ℕ → ℕ) (delays : Bytes → ℕ → ℕ) (infos : List Bytes) (d : Daemon)
      → Evolves d.db (receive_all json proto now delay delays infos d).db
  unfolding receive_all
  receive_all-Evolves now delay delays [] d = Evolves-refl d.db
  receive_all-Evolves now delay delays (info ∷ infos) d =
      let d' = handle_received json proto now delay delays info d in
      Evolves-trans d.db d'.db (receive_all json proto now delay delays infos d').db
        (handle_received-Evolves json proto now delay delays info d)
        (receive_all-Evolves now delay delays infos d')

  receive_all-identity :
      (now : ℕ) (delay : ℕ → ℕ) (delays : Bytes → ℕ → ℕ) (infos : List Bytes) (d : Daemon)
      → identity (receive_all json proto now delay delays infos d) ≡ identity d
  unfolding receive_all
  receive_all-identity now delay delays [] d = refl
  receive_all-identity now delay delays (info ∷ infos) d =
      receive_all-identity now delay delays infos
        (handle_received json proto now delay delays info d)
      ∙ handle_received-identity json proto now delay delays info d

start-Advances :
    {Float : Type 0} (s : Server Float) (c : Config Float) (path : Bytes)
    → Advances s (start c path s.daemon.db)
unfolding start new_daemon Direwolf.new_client
start-Advances s c path =
    let m = migrate-Evolves s.daemon.db in
    record {
      sound = λ h. record {
        database = m.consistent h.database;
        callsign = refl;
        ssid = refl;
        modem_callsign = refl;
        modem_ssid = refl;
        connection = refl;
      };
      evolves = m;
    }

set_daemon-some :
    {Float : Type 0} (s s' : Server Float) (o : Option Daemon)
    → set_daemon s o ≡ some s'
    → (d : Daemon) × (o ≡ some d) × (with_daemon s d ≡ s')
set_daemon-some s s' none e = absurd (cc)
set_daemon-some s s' (some d) e = (d, refl, cc)

module _ {Float : Type 0} (json : Json) (proto : Proto) (sha256 : Bytes → Bytes) where
  modem_step-Advances :
      (now : ℕ) (delay : ℕ → ℕ) (delays : Bytes → ℕ → ℕ) (e : Direwolf.Event) (s : Server Float)
      → Advances s (with_daemon s (modem_step json proto now delay delays e s.daemon))
  unfolding modem_step
  modem_step-Advances now delay delays e s =
      let r = Direwolf.step s.daemon.direwolf e in
      let d : Daemon = record (s.daemon) { direwolf = r.0 } in
      Advances-trans s (with_daemon s d)
        (with_daemon s (modem_step json proto now delay delays e s.daemon))
        (with_modem-Advances s e)
        (with_daemon-Advances (with_daemon s d) (receive_all json proto now delay delays r.1 d)
          (receive_all-Evolves json proto now delay delays r.1 d)
          (receive_all-identity json proto now delay delays r.1 d))

  step-Advances :
      (e : Event Float) (s s' : Server Float) → step json proto sha256 e s ≡ some s' → Advances s s'
  unfolding step
  step-Advances (modem now delay delays e) s s' h =
      elim (Bool-cases s.config.network.offline_mode) [
        | inl b ↦ subst (λ x. Advances s x) (ground (arith, h, b)) (Advances-refl s)
        | inr b ↦
            subst (λ x. Advances s x) (ground (arith, h, b))
              (modem_step-Advances now delay delays e s)
      ]
  step-Advances (transmission now ok) s s' h =
      let (d, e, f) =
        set_daemon-some s s' (daemon_after (transmit_step json proto now ok s.daemon)) h in
      subst (λ x. Advances s x) f
        (with_daemon-Advances s d (transmit_step-Evolves json proto now ok s.daemon d e)
          (transmit_step-identity json proto now ok s.daemon d e))
  step-Advances (sync now delay) s s' h =
      subst (λ x. Advances s x) (cc)
        (with_daemon-Advances s (broadcast_svec json proto now delay s.daemon)
          (broadcast_svec-Evolves json proto now delay s.daemon)
          (broadcast_svec-identity json proto now delay s.daemon))
  step-Advances (cleaning now) s s' h =
      subst (λ x. Advances s x) (cc)
        (with_daemon-Advances s (cleanup now s.daemon) (cleanup-Evolves now s.daemon)
          (cleanup-identity now s.daemon))
  step-Advances (request now delay r) s s' h =
      subst (λ x. Advances s x) (cc) (serve-Advances json proto sha256 now delay r s)
  step-Advances (restarted c path) s s' h = subst (λ x. Advances s x) (cc) (start-Advances s c path)

  next-run :
      (e : Event Float) (es : List (Event Float)) (s s' : Server Float)
      → run json proto sha256 (e ∷ es) s ≡ some s'
      → (t : Server Float) × (step json proto sha256 e s ≡ some t)
        × (run json proto sha256 es t ≡ some s')
  unfolding run
  next-run e es s s' h = elim (Option-cases (step json proto sha256 e s)) [
    | inl p ↦ absurd (ground (arith, h, p))
    | inr (t, p) ↦ (t, p, ground (arith, h, p))
  ]

  pub run-Advances :
      (es : List (Event Float)) (s s' : Server Float)
      → run json proto sha256 es s ≡ some s'
      → Advances s s'
  run-Advances [] s s' h =
      let e : s ≡ s' = unfold run in cc in subst (λ x. Advances s x) e (Advances-refl s)
  run-Advances (e ∷ es) s s' h =
      let (t, p, q) = next-run e es s s' h in
      Advances-trans s t s' (step-Advances e s t p) (run-Advances es t s' q)

  -- Whatever reaches a sound node, frames, ticks, requests and restarts in any order, the node is
  -- sound as long as the process goes on: no two messages share an ID or a number of one node,
  -- the IDs of the queue ascend below the counter, no key of the seen cache is there twice, the
  -- daemon, its configuration and the modem's client have one callsign and SSID, and the
  -- client's flag agrees with its connection.
  pub run-IsSound :
      (es : List (Event Float)) (s s' : Server Float)
      → IsSound s
      → run json proto sha256 es s ≡ some s'
      → IsSound s'
  run-IsSound es s s' v h = (run-Advances es s s' h).sound v
