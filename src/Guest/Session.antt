-- ===== src/Guest/Session.antt =====
-- One browser tab of a guest (guest.go, `guestSession`): its queue, its rate limit and its counter
-- window. The channel holds envelopes before they are sealed; `time.Now` is an argument, in
-- nanoseconds. The lock makes each call one step.
pub mod Rate
pub mod Stream
use lanrunner.Common.{
  ℕ, suc, ◌+◌, Bool, true, false, List, [], ◌∷◌, ◌++◌, leb, ltb, if◌then◌else◌, length, Text,
}
use lanrunner.Guest.Replay.{ReplayWindow, accept}

abbrev pub guest_rate_max : ℕ
guest_rate_max = 30

abbrev pub guest_rate_window : ℕ
guest_rate_window = 10_000_000_000

abbrev pub guest_queue_depth : ℕ
guest_queue_depth = 256

pub record Envelope : Type 0 where
  pub kind : Text
  pub mid : Text
  pub body : Text

pub record GuestSession : Type 0 where
  pub sid : Text
  pub invite : Text
  pub remote : Text
  pub nick : Text
  pub enc : Bool
  pub ch : List Envelope
  pub created : ℕ
  pub last : ℕ
  pub stream_gen : ℕ
  pub sent_backlog : Bool
  pub rate_n : ℕ
  pub rate_at : ℕ
  pub replay : ReplayWindow
  pub closed : Bool

unfoldable pub touch : GuestSession → ℕ → GuestSession
touch s now = record s { last = now }

unfoldable pub allow : GuestSession → ℕ → GuestSession × Bool
allow s now =
    if ltb (s.rate_at + guest_rate_window) now
    then (record s { rate_at = now; rate_n = 1 }, leb 1 guest_rate_max)
    else (record s { rate_n = suc s.rate_n }, leb (suc s.rate_n) guest_rate_max)

unfoldable pub fresh : GuestSession → ℕ → GuestSession × Bool
fresh s seq = let (w, ok) = accept s.replay seq in (record s { replay = w }, ok)

-- A full queue drops the envelope.
unfoldable pub push : GuestSession → Envelope → GuestSession
push s e = if ltb (length s.ch) guest_queue_depth then record s { ch = s.ch ++ e ∷ [] } else s
