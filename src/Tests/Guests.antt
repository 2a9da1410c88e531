-- ===== src/Tests/Guests.antt =====
-- The theorems on the requests of guests (guest.go) at concrete inputs.
use lanrunner.Common.{
  refl, same, arith, ◌++◌, ◌≡◌, ℕ, Bool, true, false, List, [], ◌∷◌, Option, none, some, Text,
  codes,
}
use lanrunner.Common.Dict.{lookup}
use lanrunner.Guest.Replay.{new_window}
use lanrunner.Guest.Session.{GuestSession, Envelope}
use lanrunner.Guest.Session.Stream.Order.{
  Tab, TabEvent, queued, wrote, kept_alive, all_of, happen_all, queued_in, happen_all-all_of,
}
use lanrunner.Guest.Hub.{GuestHub, Invite, empty_hub}
use lanrunner.Guest.Hub.Hello.{Request, GuestHelloIn, Agreement, agreed, handle_hello}
use lanrunner.Guest.Hub.Hello.Admission.{Outcome, handle_hello-Outcome}
use lanrunner.Guest.Hub.Frames.{GuestFrameIn, GuestPayload, handle_send}
use lanrunner.Guest.Hub.Frames.Stored.{Adds, handle_send-Adds}

abbrev guest_inv : Invite
guest_inv = record {
  id = codes "inv";
  token = codes "tok";
  label = codes "Gil";
  folder = codes "/tmp/kit";
  created = 1;
  expires = 0;
  revoked = false;
  allow_plain = true;
  last_nick = [];
  last_seen = 0;
}

abbrev guest_tab : GuestSession
guest_tab = record {
  sid = codes "s";
  invite = codes "inv";
  remote = codes "10.0.0.9";
  nick = codes "Gil";
  enc = false;
  ch = [];
  created = 1;
  last = 1;
  stream_gen = 0;
  sent_backlog = false;
  rate_n = 0;
  rate_at = 1;
  replay = new_window;
  closed = false;
}

abbrev guest_hub : GuestHub
guest_hub = record empty_hub {
  invites = (codes "inv", guest_inv) ∷ [];
  order = codes "inv" ∷ [];
  sessions = (codes "s", guest_tab) ∷ [];
  by_invite = (codes "inv", codes "s" ∷ []) ∷ [];
  running = true;
}

abbrev posted : Request
posted = record { options = false; post = true; remote = codes "10.0.0.9" }

abbrev greeting : GuestHelloIn
greeting = record {
  v = 2;
  id = codes "inv";
  token = codes "tok";
  nick = codes "Gil";
  xk = codes "key";
}

abbrev anyone : Text → Bool
anyone host = true

abbrev always : Text → Invite → Text → Agreement
always xk inv sid = agreed

handle_hello-Outcome_example :
    Outcome anyone always guest_hub posted
      (some greeting)
      (codes "s2")
      5
      5
      (handle_hello anyone always guest_hub posted (some greeting) (codes "s2") 5 5)
unfolding lookup same
handle_hello-Outcome_example =
    handle_hello-Outcome anyone always guest_hub posted (some greeting) (codes "s2") 5 5 refl

abbrev plain_frame : GuestFrameIn
plain_frame = record { id = codes "inv"; sid = codes "s"; frame = []; plain = codes "hi" }

abbrev no_base64 : Text → Option (List ℕ)
no_base64 t = none

abbrev no_gcm : Text → List ℕ → List ℕ → Option Text
no_gcm sid nonce ct = none

abbrev as_body : Text → Option GuestPayload
as_body t = some (record { kind = codes "msg"; body = t; seq = 1 })

abbrev seals : GuestSession → Bool
seals s = true

handle_send-Adds_example :
    Adds []
      (handle_send no_base64 no_gcm as_body seals anyone guest_hub [] posted
        (some plain_frame)
        (codes "m")
        5
        5).hist
      (codes "inv")
handle_send-Adds_example =
    handle_send-Adds no_base64 no_gcm as_body seals anyone guest_hub [] posted plain_frame
      (codes "m") 5 5

abbrev an_envelope : Text → Envelope
an_envelope mid = record { kind = codes "msg"; mid = mid; body = codes "hi" }

abbrev open_tab_now : Tab
open_tab_now = record {
  session = guest_tab;
  stream = record { gen = 0; live = true };
  written = [];
}

abbrev two_messages : List TabEvent
two_messages =
    queued (an_envelope (codes "1"))
    ∷ wrote 6
    ∷ queued (an_envelope (codes "2"))
    ∷ kept_alive 7
    ∷ []

happen_all-all_of_example :
    all_of (happen_all open_tab_now two_messages) ≡ all_of open_tab_now ++ queued_in two_messages
happen_all-all_of_example = happen_all-all_of open_tab_now two_messages (omega arith)
