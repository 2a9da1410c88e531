-- ===== src/Guest/Session/Stream/Order.antt =====
-- What a stream writes is what was queued.
use lanrunner.Common.{
  ℕ, ◌+◌, ◌≤◌, ◌<◌, ◌≡◌, refl, sym, ap, ◌∙◌, Bool, true, List, [], ◌∷◌, ◌++◌, append-nil,
  append_assoc, length, length-append, inl, inr, Bool-cases, arith, lt→ltb,
}
use lanrunner.Guest.Session.{GuestSession, Envelope, touch, push, guest_queue_depth}
use lanrunner.Guest.Session.Stream.{Stream, take_from, turn, keepalive}

-- What happens to a tab while its stream is connected.
pub data TabEvent : Type 0 where
  queued : Envelope → TabEvent
  wrote : ℕ → TabEvent
  kept_alive : ℕ → TabEvent

pub record Tab : Type 0 where
  pub session : GuestSession
  pub stream : Stream
  pub written : List Envelope

pub happen : Tab → TabEvent → Tab
happen t (queued e) = record t { session = push t.session e }
happen t (wrote now) =
    let out = turn t.session t.stream true now in
    record { session = out.0; stream = out.1; written = t.written ++ out.2 }
happen t (kept_alive now) =
    let out = keepalive t.session t.stream true now in record t { session = out.0; stream = out.1 }

pub happen_all : Tab → List TabEvent → Tab
happen_all t [] = t
happen_all t (e ∷ events) = happen_all (happen t e) events

abbrev pub queued_in : List TabEvent → List Envelope
queued_in [] = []
queued_in (queued e ∷ events) = e ∷ queued_in events
queued_in (wrote now ∷ events) = queued_in events
queued_in (kept_alive now ∷ events) = queued_in events

-- What was written and what is still in the queue.
abbrev pub all_of : Tab → List Envelope
all_of t = t.written ++ t.session.ch

take_from-all :
    (s : GuestSession) (st : Stream) (now : ℕ) (ch : List Envelope)
    → s.ch ≡ ch
    → ((take_from s st true now ch).2 ++ (take_from s st true now ch).0.ch ≡ ch)
      × (length (take_from s st true now ch).0.ch ≤ length ch)
unfolding take_from touch
take_from-all s st now [] e = (e, omega (arith, ap length e))
take_from-all s st now (x ∷ ch) e = (refl, omega arith)

turn-all :
    (s : GuestSession) (st : Stream) (now : ℕ)
    → ((turn s st true now).2 ++ (turn s st true now).0.ch ≡ s.ch)
      × (length (turn s st true now).0.ch ≤ length s.ch)
unfolding turn
turn-all s st now = elim (Bool-cases st.live) [
  | inl e ↦ rw e (take_from-all s (record st { live = true }) now s.ch refl)
  | inr e ↦ rw e (refl, omega arith)
]

keepalive-ch :
    (s : GuestSession) (st : Stream) (up : Bool) (now : ℕ) → (keepalive s st up now).0.ch ≡ s.ch
unfolding keepalive touch
keepalive-ch s st up now = elim (Bool-cases st.live) [
  | inr e ↦ rw e refl
  | inl e ↦ elim (Bool-cases up) [ inl u ↦ rw (e, u) refl | inr u ↦ rw (e, u) refl ]
]

push-room :
    (s : GuestSession) (e : Envelope)
    → length s.ch < guest_queue_depth
    → (push s e).ch ≡ s.ch ++ e ∷ []
unfolding push
push-room s e room = let small = lt→ltb (length s.ch) guest_queue_depth room in rw small refl

-- While the queue has room for all that comes and the connection takes what is written, the stream has
-- written, followed by what still waits, exactly what waited at the start followed by what was queued
-- since: nothing is lost, repeated or out of order, whenever the turns of the stream fall.
pub happen_all-all_of :
    (t : Tab) (events : List TabEvent)
    → length t.session.ch + length (queued_in events) ≤ guest_queue_depth
    → all_of (happen_all t events) ≡ all_of t ++ queued_in events
unfolding happen_all happen
happen_all-all_of t [] room = sym (append-nil (all_of t))
happen_all-all_of t (queued e ∷ events) room =
    let grown = push-room t.session e (omega arith) in
    let t' = happen t (queued e) in
    let longer : length t'.session.ch ≡ length t.session.ch + 1 =
      ap length grown ∙ length-append t.session.ch (e ∷ []) in
    happen_all-all_of t' events (omega (arith, longer))
    ∙ ap (λ ch. (t.written ++ ch) ++ queued_in events) grown
    ∙ ap (◌++ queued_in events) (sym (append_assoc t.written t.session.ch (e ∷ [])))
    ∙ append_assoc (all_of t) (e ∷ []) (queued_in events)
happen_all-all_of t (wrote now ∷ events) room =
    let (kept, shorter) = turn-all t.session t.stream now in
    let out = turn t.session t.stream true now in
    happen_all-all_of (happen t (wrote now)) events (omega (arith, shorter))
    ∙ ap (◌++ queued_in events) (append_assoc t.written out.2 out.0.ch ∙ ap (t.written ++◌) kept)
happen_all-all_of t (kept_alive now ∷ events) room =
    let same_queue = keepalive-ch t.session t.stream true now in
    happen_all-all_of (happen t (kept_alive now)) events (omega (arith, ap length same_queue))
    ∙ ap (λ ch. (t.written ++ ch) ++ queued_in events) same_queue
