-- ===== src/System/Changes.antt =====
-- A change of the running node that keeps what `IsSound` states.
use rfmpd.Base.{Bool, ap, arith, false, if◌then◌else◌, refl, sym, true, ◌∙◌, ◌≡◌}
use rfmpd.Direwolf
use rfmpd.Direwolf.{
  DirewolfClient, connect, close, receive, read_timeout, read_error, read_bytes, dial_failed,
  dialed, cancelled, read,
}
use rfmpd.Direwolf.Connection.{step-IsConsistent}
use rfmpd.Storage.{Database}
use rfmpd.Storage.Statements.{IsConsistent, Evolves, Evolves-refl, Evolves-trans}
use rfmpd.Daemon.{Daemon}
use rfmpd.Daemon.Identity.{identity}
use rfmpd.Api.{Server, Response}
use rfmpd.System.{with_daemon}

-- The tables keep their constraints, the daemon, its configuration and the modem's client have
-- one callsign and SSID, and the client's flag agrees with its connection.
pub record IsSound {Float : Type 0} (s : Server Float) : Type 0 where
  pub database : IsConsistent s.daemon.db
  pub callsign : s.daemon.callsign ≡ s.config.node.callsign
  pub ssid : s.daemon.ssid ≡ s.config.node.ssid
  pub modem_callsign : s.daemon.direwolf.callsign ≡ s.daemon.callsign
  pub modem_ssid : s.daemon.direwolf.ssid ≡ s.daemon.ssid
  pub connection : s.daemon.direwolf.connected ≡ s.daemon.direwolf.conn

-- A change that keeps this, and the content of the stored messages.
pub record Advances {Float : Type 0} (s s' : Server Float) : Type 0 where
  pub sound : IsSound s → IsSound s'
  pub evolves : Evolves s.daemon.db s'.daemon.db

pub Advances-refl : {Float : Type 0} (s : Server Float) → Advances s s
Advances-refl s = record { sound = λ h. h; evolves = Evolves-refl s.daemon.db }

pub Advances-trans :
    {Float : Type 0} (a b c : Server Float) → Advances a b → Advances b c → Advances a c
Advances-trans a b c f g = record {
  sound = λ h. g.sound (f.sound h);
  evolves = Evolves-trans a.daemon.db b.daemon.db c.daemon.db f.evolves g.evolves;
}

pub if-Advances :
    {Float : Type 0} (b : Bool) (s : Server Float) (x y : Server Float × Response Float)
    → Advances s x.0
    → Advances s y.0
    → Advances s (if b then x else y).0
if-Advances true s x y p q = p
if-Advances false s x y p q = q

pub with_daemon-Advances :
    {Float : Type 0} (s : Server Float) (d : Daemon)
    → Evolves s.daemon.db d.db
    → identity d ≡ identity s.daemon
    → Advances s (with_daemon s d)
with_daemon-Advances s d p e = record {
  sound = λ h. record {
    database = p.consistent h.database;
    callsign = ap (λ k. k.0) e ∙ h.callsign;
    ssid = ap (λ k. k.1) e ∙ h.ssid;
    modem_callsign = ap (λ k. k.2.callsign) e ∙ h.modem_callsign ∙ sym (ap (λ k. k.0) e);
    modem_ssid = ap (λ k. k.2.ssid) e ∙ h.modem_ssid ∙ sym (ap (λ k. k.1) e);
    connection = ap (λ k. k.2.connected) e ∙ h.connection ∙ sym (ap (λ k. k.2.conn) e);
  };
  evolves = p;
}

-- the same database but for its channels
pub with_db-Advances :
    {Float : Type 0} (s : Server Float) (db : Database)
    → Evolves s.daemon.db db
    → Advances s (with_daemon s (record (s.daemon) { db = db }))
with_db-Advances s db p = with_daemon-Advances s (record (s.daemon) { db = db }) p refl

step-callsign :
    (c : DirewolfClient) (e : Direwolf.Event) → (Direwolf.step c e).0.callsign ≡ c.callsign
unfolding Direwolf.step connect close receive
step-callsign c dial_failed = refl
step-callsign c dialed = ground arith
step-callsign c cancelled = refl
step-callsign c (read read_timeout) = ground arith
step-callsign c (read read_error) = ground arith
step-callsign c (read (read_bytes bs)) = ground arith

step-ssid : (c : DirewolfClient) (e : Direwolf.Event) → (Direwolf.step c e).0.ssid ≡ c.ssid
unfolding Direwolf.step connect close receive
step-ssid c dial_failed = refl
step-ssid c dialed = ground arith
step-ssid c cancelled = refl
step-ssid c (read read_timeout) = ground arith
step-ssid c (read read_error) = ground arith
step-ssid c (read (read_bytes bs)) = ground arith

pub with_modem-Advances :
    {Float : Type 0} (s : Server Float) (e : Direwolf.Event)
    → Advances s
        (with_daemon s (record (s.daemon) { direwolf = (Direwolf.step s.daemon.direwolf e).0 }))
with_modem-Advances s e = record {
  sound = λ h. record {
    database = h.database;
    callsign = h.callsign;
    ssid = h.ssid;
    modem_callsign = step-callsign s.daemon.direwolf e ∙ h.modem_callsign;
    modem_ssid = step-ssid s.daemon.direwolf e ∙ h.modem_ssid;
    connection = step-IsConsistent s.daemon.direwolf e h.connection;
  };
  evolves = Evolves-refl s.daemon.db;
}
