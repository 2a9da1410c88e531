-- ===== src/Guest/Throttle.antt =====
-- The throttle on failed guest handshakes (guest.go, `authThrottle`). Times and durations are
-- nanoseconds; the time is an argument of each call, and the zero `time.Time` is 0. The shift of
-- `backoff` wraps as an int64 does.
pub mod Backoff
pub mod Bans
use lanrunner.Common.{
  ℕ, suc, ◌+◌, ◌-◌, ◌*◌, ◌%◌, ◌^◌, Bool, true, false, List, [], ◌∷◌, Option, none, some, ◌&&◌, ◌||◌,
  ltb, leb, ◌==◌, if◌then◌else◌, Text,
}
use lanrunner.Common.Dict.{Dict, lookup, insert, erase}

abbrev pub second : ℕ
second = 1_000_000_000

abbrev pub guest_auth_fails : ℕ
guest_auth_fails = 5

abbrev pub guest_auth_window : ℕ
guest_auth_window = 120 * second

abbrev pub guest_auth_ban_max : ℕ
guest_auth_ban_max = 900 * second

pub record AuthFail : Type 0 where
  pub n : ℕ
  pub seen : ℕ
  pub until : ℕ

abbrev pub AuthThrottle : Type 0
AuthThrottle = Dict AuthFail

-- `time.Until(rec.until)`, if it is positive.
unfoldable pub wait_of : Option AuthFail → ℕ → Option ℕ
wait_of none now = none
wait_of (some rec) now = if ltb now rec.until then some (rec.until - now) else none

-- The time still to wait, if the address serves a timeout.
unfoldable pub blocked : AuthThrottle → Text → ℕ → Option ℕ
unfolding wait_of
blocked t ip now = wait_of (lookup ip t) now

-- An int64 above 2 ^ 63 is negative.
capped : ℕ → ℕ
capped raw =
    if ltb guest_auth_ban_max raw || (leb (2 ^ 63) raw || raw == 0) then guest_auth_ban_max else raw

-- `30 * time.Second << uint(k)`, bounded.
pub backoff : ℕ → ℕ
unfolding capped
backoff k = capped (30 * second * 2 ^ k % 2 ^ 64)

-- The record that a failure at `now` starts from.
current : Option AuthFail → ℕ → AuthFail
current none now = record { n = 0; seen = 0; until = 0 }
current (some rec) now =
    if ltb (rec.seen + guest_auth_window) now then record { n = 0; seen = 0; until = 0 } else rec

-- The record after one more failure, and the timeout imposed.
fail_once : AuthFail → ℕ → AuthFail × ℕ
fail_once rec now =
    if ltb (suc rec.n) guest_auth_fails then (record rec { n = suc rec.n; seen = now }, 0) else (
      record { n = suc rec.n; seen = now; until = now + backoff (suc rec.n - guest_auth_fails) },
      backoff (suc rec.n - guest_auth_fails),
    )

pub bad : AuthThrottle → Text → ℕ → AuthThrottle × ℕ
unfolding current fail_once
bad t ip now =
    let (rec, penalty) = fail_once (current (lookup ip t) now) now in (insert ip rec t, penalty)

pub good : AuthThrottle → Text → AuthThrottle
good t ip = erase ip t

pub sweep : AuthThrottle → ℕ → AuthThrottle
sweep [] now = []
sweep ((ip, rec) ∷ t) now =
    if ltb (rec.seen + guest_auth_window) now && ltb rec.until now
    then sweep t now
    else (ip, rec) ∷ sweep t now
