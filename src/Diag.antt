-- ===== src/Diag.antt =====
-- The diagnosis of the network (diag.go). The counters count up from 0; the texts of the verdicts are
-- kept by name, and the log by its lines.
pub mod Quiet
use lanrunner.Common.{
  ℕ, suc, ◌+◌, Bool, true, false, List, [], ◌∷◌, ◌++◌, Option, none, some, not, ◌&&◌, ◌||◌, ltb,
  ◌==◌, if◌then◌else◌, Text, length,
}

pub data Severity : Type 0 where
  pending ok warn crit : Severity

pub data Verdict : Type 0 where
  starting socket_not_bound inbound_udp_dropped no_peers sessions_blocked inbound_blocked healthy :
      Verdict

pub severity_of : Verdict → Severity
severity_of starting = pending
severity_of socket_not_bound = crit
severity_of inbound_udp_dropped = crit
severity_of no_peers = warn
severity_of sessions_blocked = warn
severity_of inbound_blocked = warn
severity_of healthy = ok

-- The number of the verdict, for the test of equality.
pub rank : Verdict → ℕ
rank starting = 0
rank socket_not_bound = 1
rank inbound_udp_dropped = 2
rank no_peers = 3
rank sessions_blocked = 4
rank inbound_blocked = 5
rank healthy = 6

-- The advice that goes with a verdict.
pub fixes : Verdict → ℕ
fixes starting = 0
fixes socket_not_bound = 2
fixes inbound_udp_dropped = 2
fixes no_peers = 4
fixes sessions_blocked = 2
fixes inbound_blocked = 1
fixes healthy = 0

pub record Diag : Type 0 where
  pub bind_b : Bool
  pub bind_m : Bool
  pub announces : ℕ
  pub datagrams : ℕ
  pub loopback : ℕ
  pub inbound : ℕ
  pub dial_fail : ℕ
  pub verdict : Verdict

abbrev pub new_diag : Diag
new_diag = record {
  bind_b = false;
  bind_m = false;
  announces = 0;
  datagrams = 0;
  loopback = 0;
  inbound = 0;
  dial_fail = 0;
  verdict = starting;
}

pub mark_bind : Diag → Bool → Diag
mark_bind d broadcast = if broadcast then record d { bind_b = true } else record d { bind_m = true }

pub mark_loopback : Diag → Diag
mark_loopback d = record d { loopback = suc d.loopback }

pub count_datagram : Diag → Diag
count_datagram d = record d { datagrams = suc d.datagrams }

pub count_announce : Diag → Diag
count_announce d = record d { announces = suc d.announces }

pub count_inbound : Diag → Diag
count_inbound d = record d { inbound = suc d.inbound }

pub count_dial_fail : Diag → Diag
count_dial_fail d = record d { dial_fail = suc d.dial_fail }

-- `set`: the new state, and the lines that are logged, one for the verdict and one for each advice.
pub set : Diag → Verdict → Diag × ℕ
unfolding rank fixes
set d v = (record d { verdict = v }, if rank d.verdict == rank v then 0 else suc (fixes v))

-- The first of the tests of `evaluate` that applies.
pub verdict_of : Diag → ℕ → ℕ → Verdict
verdict_of d peers sessions =
    if not d.bind_b
    then socket_not_bound
    else if d.loopback == 0 && ltb 2 d.announces
    then inbound_udp_dropped
    else if peers == 0
    then no_peers
    else if sessions == 0 && ltb 0 d.dial_fail
    then sessions_blocked
    else if d.inbound == 0 && ltb 0 sessions
    then inbound_blocked
    else healthy

pub evaluate : Diag → ℕ → ℕ → Diag × ℕ
unfolding set verdict_of
evaluate d peers sessions = set d (verdict_of d peers sessions)
