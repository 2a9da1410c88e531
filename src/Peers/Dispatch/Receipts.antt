-- ===== src/Peers/Dispatch/Receipts.antt =====
-- The receipt that a message brings back.
use lanrunner.Common.{ℕ, ◌+◌, ◌≡◌, refl, false, [], some, if◌then◌else◌, Text, codes, same}
use lanrunner.History.{History, stored, acks_of, safe_name, mark_delivered}
use lanrunner.History.Receipts.{acks_of-mark_delivered}
use lanrunner.Sanitize.{sanitize_body}
use lanrunner.Peers.{Net}
use lanrunner.Peers.Handshake.{Session}
use lanrunner.Peers.Dispatch.{Msg, bare, conv_of, nothing, on_msg, handle_frame}

-- The receipt of a message.
abbrev pub receipt_of : Msg → Msg
receipt_of m = record bare { kind = codes "ack"; mid = m.mid; conv = m.conv }

-- A message with something left to show is answered.
msg-reply :
    {Aead : Type 0} (n : Net) (hist : History) (s : Session Aead) (m : Msg) (now now_ms : ℕ)
    → m.kind ≡ codes "msg"
    → same (sanitize_body m.body).0 [] ≡ false
    → (handle_frame n hist s (some m) now now_ms).reply ≡ some (receipt_of m)
unfolding handle_frame on_msg same
msg-reply n hist s m now now_ms kind shows = rw (kind, shows) refl

ack-hist :
    {Aead : Type 0} (n : Net) (hist : History) (s : Session Aead) (r : Msg) (now now_ms : ℕ)
    → r.kind ≡ codes "ack"
    → (handle_frame n hist s (some r) now now_ms).hist
      ≡ mark_delivered hist (conv_of r.conv s.conn.fp) r.mid now_ms
unfolding handle_frame nothing same
ack-hist n hist s r now now_ms e = rw e refl

-- A message that has an id and something left to show once it is cleaned is answered by a receipt, and
-- the receipt, at the sender, counts once for the message's id and for no other, in the conversation that
-- the message's scope names there: that of the peer for a direct message, and the room otherwise.
pub acks_of-handle_frame :
    {Aead : Type 0} (n peer_net : Net) (hist peer_hist : History) (s peer : Session Aead) (m : Msg)
    (k : Text) (now now_ms later later_ms : ℕ)
    → m.kind ≡ codes "msg"
    → same m.mid [] ≡ false
    → same (sanitize_body m.body).0 [] ≡ false
    → (r : Msg) × ((handle_frame peer_net peer_hist peer (some m) now now_ms).reply ≡ some r)
      × (acks_of k (
            stored
              (handle_frame n hist s (some r) later later_ms).hist
              (safe_name (conv_of m.conv s.conn.fp)))
          ≡ acks_of k (stored hist (safe_name (conv_of m.conv s.conn.fp)))
            + (if same m.mid k then 1 else 0))
acks_of-handle_frame n peer_net hist peer_hist s peer m k now now_ms later later_ms kind named
      shows =
    (
      receipt_of m,
      msg-reply peer_net peer_hist peer m now now_ms kind shows,
      rw (ack-hist n hist s (receipt_of m) later later_ms refl)
          (acks_of-mark_delivered hist (conv_of m.conv s.conn.fp) m.mid k later_ms named),
    )
