-- ===== src/Guest/Session/Stream.antt =====
-- The stream that writes the queue of a tab (guest.go, `handleEvents`): its start, and its loop as one
-- step for each turn of the `select`. A connection may refuse a write at any turn; the keepalive comment
-- is the turn that writes no envelope.
pub mod Identity
pub mod Order
use lanrunner.Common.{
  ℕ, suc, ◌+◌, Bool, true, false, List, [], ◌∷◌, ◌++◌, not, ◌==◌, if◌then◌else◌, Text, codes, map,
}
use lanrunner.History.{HistEntry, History, load}
use lanrunner.Guest.Session.{GuestSession, Envelope, touch, push}

abbrev pub guest_backlog : ℕ
guest_backlog = 80

-- A stream, by the number that it took at its start, and whether its handler still runs.
pub record Stream : Type 0 where
  pub gen : ℕ
  pub live : Bool

pub ready : Envelope
ready = record { kind = codes "ready"; mid = []; body = [] }

pub old_message : HistEntry → Envelope
old_message e = record { kind = codes "msg"; mid = e.mid; body = e.body }

-- The start of a stream whose connection takes all: the session, the stream, and what is written. A
-- session shows the transcript once, however often its page reconnects.
pub open_stream : GuestSession → History → ℕ → GuestSession × Stream × List Envelope
unfolding ready old_message
open_stream s hist now =
    let s' = record (touch s now) { stream_gen = suc s.stream_gen; sent_backlog = true } in
    (
      s',
      record { gen = suc s.stream_gen; live = true },
      if s.sent_backlog
          then ready ∷ []
          else ready ∷ map old_message (load hist s.invite guest_backlog),
    )

-- The test at the end of a turn.
pub still_newest : GuestSession → Stream → Stream
still_newest s st = if s.stream_gen == st.gen then st else record st { live = false }

-- The turn that takes an envelope; `up` says that the connection takes it.
pub take_from :
    GuestSession → Stream → Bool → ℕ → List Envelope → GuestSession × Stream × List Envelope
unfolding still_newest
take_from s st up now [] = (s, st, [])
take_from s st up now (e ∷ rest) =
    let s' = record s { ch = rest } in
    if up then (touch s' now, still_newest s' st, e ∷ []) else (s', record st { live = false }, [])

pub turn : GuestSession → Stream → Bool → ℕ → GuestSession × Stream × List Envelope
unfolding take_from
turn s st up now = if st.live then take_from s st up now s.ch else (s, st, [])

pub keepalive : GuestSession → Stream → Bool → ℕ → GuestSession × Stream
unfolding still_newest
keepalive s st up now =
    if not st.live
    then (s, st)
    else if up
    then (touch s now, still_newest s st)
    else (s, record st { live = false })
