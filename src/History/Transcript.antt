-- ===== src/History/Transcript.antt =====
-- What a reader of the history sees.
use lanrunner.Common.{
  ℕ, ◌-◌, ◌≤◌, ◌<◌, ◌≡◌, refl, ◌∙◌, ap, List, [], ◌∷◌, ◌++◌, map, arith, if◌then◌else◌, Text, same,
  same_iff, Bool-cases, inl, inr, length, length-drop, length-map,
}
use lanrunner.Common.Dict.{lookup, lookup-insert, lookup-erase}
use lanrunner.History.{
  HistEntry, History, safe_name, append, mark_delivered, load, delete, messages, acks_of, newest,
  stored, ack,
}

-- What the program does to the history.
pub data Event : Type 0 where
  says : HistEntry → Event
  receipt : Text → Text → ℕ → Event
  clear : Text → Event

pub step : History → Event → History
step h (says e) = append h e
step h (receipt conv mid now) = mark_delivered h conv mid now
step h (clear conv) = delete h conv

pub run : History → List Event → History
run h [] = h
run h (e ∷ es) = run (step h e) es

-- The specification: the entries of one transcript, from the events alone.
abbrev pub record_event : Text → List HistEntry → Event → List HistEntry
record_event name old (says e) = if same (safe_name e.conv) name then old ++ e ∷ [] else old
record_event name old (receipt conv mid now) =
    if same mid []
    then old
    else if same (safe_name conv) name
    then old ++ ack conv mid now ∷ []
    else old
record_event name old (clear conv) = if same (safe_name conv) name then [] else old

abbrev pub transcript : Text → List HistEntry → List Event → List HistEntry
transcript name old [] = old
transcript name old (e ∷ es) = transcript name (record_event name old e) es

pub stored-append :
    (h : History) (e : HistEntry) (name : Text)
    → stored (append h e) name
      ≡ (if same (safe_name e.conv) name then stored h name ++ e ∷ [] else stored h name)
unfolding append stored
stored-append h e name = elim (Bool-cases (same (safe_name e.conv) name)) [
  | inl hit ↦
      let k = (same_iff (safe_name e.conv) name).0 hit in
      rw (hit, lookup-insert (safe_name e.conv) name (stored h (safe_name e.conv) ++ e ∷ []) h, hit)
        (rw k)
  | inr miss ↦
      rw (
        miss,
        lookup-insert (safe_name e.conv) name (stored h (safe_name e.conv) ++ e ∷ []) h,
        miss,
      )
]

stored-step :
    (h : History) (e : Event) (name : Text)
    → stored (step h e) name ≡ record_event name (stored h name) e
unfolding step
stored-step h (says e) name = stored-append h e name
stored-step h (receipt conv mid now) name =
    unfold mark_delivered in ground (arith, stored-append h (ack conv mid now) name)
stored-step h (clear conv) name =
    unfold delete stored in ground (arith, lookup-erase (safe_name conv) name h)

stored-run :
    (h : History) (es : List Event) (name : Text)
    → stored (run h es) name ≡ transcript name (stored h name) es
unfolding run
stored-run h [] name = refl
stored-run h (e ∷ es) name =
    stored-run (step h e) es name ∙ ap (λ old. transcript name old es) (stored-step h e name)

abbrev pub with_receipts : List HistEntry → HistEntry → HistEntry
with_receipts entries e = record e { delivered = acks_of e.mid entries }

-- What is loaded after any events, from the transcript that these leave.
pub load-transcript :
    (es : List Event) (conv : Text) (limit : ℕ)
    → load (run [] es) conv limit
      ≡ map
          (with_receipts (transcript (safe_name conv) [] es))
          (newest limit (messages (transcript (safe_name conv) [] es)))
unfolding load
load-transcript es conv limit =
    rw (stored-run [] es (safe_name conv)) (unfold stored lookup in refl)

length-newest : (limit : ℕ) (msgs : List HistEntry) → 0 < limit → length (newest limit msgs) ≤ limit
unfolding newest
length-newest limit msgs h = ground (arith, length-drop (length msgs - limit) msgs)

-- A positive limit bounds what is shown.
pub length-load :
    (h : History) (conv : Text) (limit : ℕ) → 0 < limit → length (load h conv limit) ≤ limit
unfolding load
length-load h conv limit pos =
    rw (length-map (newest limit (messages (stored h (safe_name conv)))) _)
      (length-newest limit _ pos)
