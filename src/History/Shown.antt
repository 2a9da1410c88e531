-- ===== src/History/Shown.antt =====
-- What a page shows of a conversation, told by what has happened.
use lanrunner.Common.{
  ℕ, suc, ◌-◌, ◌≡◌, refl, sym, ap, ◌∙◌, List, [], ◌∷◌, ◌++◌, map, ◌&&◌, not, ltb, if◌then◌else◌,
  length, take, take-append-drop, length-drop, Text, codes, same, same_refl, arith, inl, inr,
  Bool-cases,
}
use lanrunner.History.{HistEntry, safe_name, load, messages, acks_of, newest, ack}
use lanrunner.History.Receipts.{acks_of-append}
use lanrunner.History.Transcript.{
  Event, says, receipt, clear, run, transcript, record_event, with_receipts, load-transcript,
}

-- The messages that were said in the transcript `name` since it was last cleared.
pub said : Text → List HistEntry → List Event → List HistEntry
said name old [] = old
said name old (says e ∷ es) =
    said name
      (if same (safe_name e.conv) name && not (same e.kind (codes "ack"))
        then old ++ e ∷ []
        else old)
      es
said name old (receipt conv mid now ∷ es) = said name old es
said name old (clear conv ∷ es) = said name (if same (safe_name conv) name then [] else old) es

-- The receipts for the message `mid` that came to the transcript since it was last cleared.
pub receipts_for : Text → Text → ℕ → List Event → ℕ
receipts_for name mid n [] = n
receipts_for name mid n (says e ∷ es) =
    receipts_for name mid
      (if same (safe_name e.conv) name && (same e.kind (codes "ack") && same e.mid mid)
        then suc n
        else n)
      es
receipts_for name mid n (receipt conv other now ∷ es) =
    receipts_for name mid
      (if not (same other []) && (same (safe_name conv) name && same other mid) then suc n else n)
      es
receipts_for name mid n (clear conv ∷ es) =
    receipts_for name mid (if same (safe_name conv) name then 0 else n) es

messages-append :
    (l : List HistEntry) (e : HistEntry)
    → messages (l ++ e ∷ [])
      ≡ (if same e.kind (codes "ack") then messages l else messages l ++ e ∷ [])
unfolding messages
messages-append [] e = ground arith
messages-append (x ∷ l) e = ground (arith, messages-append l e)

messages-transcript :
    (name : Text) (old : List HistEntry) (es : List Event)
    → messages (transcript name old es) ≡ said name (messages old) es
unfolding said
messages-transcript name old [] = refl
messages-transcript name old (says e ∷ es) =
    messages-transcript name (record_event name old (says e)) es
    ∙ ap (λ l. said name l es) (ground (arith, messages-append old e))
messages-transcript name old (receipt conv mid now ∷ es) =
    messages-transcript name (record_event name old (receipt conv mid now)) es
    ∙ ap (λ l. said name l es)
        (unfold same in ground (arith, messages-append old (ack conv mid now)))
messages-transcript name old (clear conv ∷ es) =
    messages-transcript name (record_event name old (clear conv)) es
    ∙ ap (λ l. said name l es) (unfold messages in ground arith)

acks_of-transcript :
    (name mid : Text) (old : List HistEntry) (es : List Event)
    → acks_of mid (transcript name old es) ≡ receipts_for name mid (acks_of mid old) es
unfolding receipts_for
acks_of-transcript name mid old [] = refl
acks_of-transcript name mid old (says e ∷ es) =
    acks_of-transcript name mid (record_event name old (says e)) es
    ∙ ap (λ n. receipts_for name mid n es) (ground (arith, acks_of-append mid old e))
acks_of-transcript name mid old (receipt conv other now ∷ es) =
    acks_of-transcript name mid (record_event name old (receipt conv other now)) es
    ∙ ap (λ n. receipts_for name mid n es)
        (ground (arith, acks_of-append mid old (ack conv other now), same_refl (codes "ack")))
acks_of-transcript name mid old (clear conv ∷ es) =
    acks_of-transcript name mid (record_event name old (clear conv)) es
    ∙ ap (λ n. receipts_for name mid n es) (unfold acks_of in ground arith)

map-pointwise :
    (f g : HistEntry → HistEntry) (l : List HistEntry)
    → ((e : HistEntry) → f e ≡ g e)
    → map f l ≡ map g l
map-pointwise f g [] e = refl
map-pointwise f g (x ∷ l) e = rw (e x, map-pointwise f g l e) refl

-- The list ends with its newest messages, of which there are as many as the limit, or all where it is
-- zero or not reached.
newest-end :
    (limit : ℕ) (msgs : List HistEntry)
    → (older : List HistEntry) × (msgs ≡ older ++ newest limit msgs)
      × (length (newest limit msgs)
          ≡ (if ltb 0 limit && ltb limit (length msgs) then limit else length msgs))
unfolding newest
newest-end limit msgs = elim (Bool-cases (ltb 0 limit && ltb limit (length msgs))) [
  | inl e ↦ rw e (
    take (length msgs - limit) msgs,
    sym (take-append-drop (length msgs - limit) msgs),
    ground (arith, length-drop (length msgs - limit) msgs),
  )
  | inr e ↦ rw e ([], refl, refl)
]

-- After any events a conversation shows the last messages that were said, since it was last cleared, in
-- the transcript that its id is kept under: as many as the limit, or all of them where the limit is
-- zero or not reached, each with the number of receipts that came for it. Two ids that are kept
-- under one name share a transcript.
pub load-run :
    (es : List Event) (conv : Text) (limit : ℕ)
    → (older shown : List HistEntry) × (said (safe_name conv) [] es ≡ older ++ shown)
      × (length shown ≡ (
          if ltb 0 limit && ltb limit (length (said (safe_name conv) [] es))
          then limit
          else length (said (safe_name conv) [] es)))
      × (load (run [] es) conv limit
          ≡ map
              (λ (e : HistEntry). record e { delivered = receipts_for (safe_name conv) e.mid 0 es })
              shown)
load-run es conv limit =
    let name = safe_name conv in
    let all : messages (transcript name [] es) ≡ said name [] es =
      messages-transcript name [] es ∙ unfold messages in refl in
    let (older, whole, count) = newest-end limit (said name [] es) in
    (
      older,
      newest limit (said name [] es),
      whole,
      count,
      load-transcript es conv limit
          ∙ rw all (
              map-pointwise (with_receipts (transcript name [] es))
                (λ (e : HistEntry). record e { delivered = receipts_for name e.mid 0 es })
                (newest limit (said name [] es))
                (λ e.
                  ap (λ (n : ℕ). record e { delivered = n })
                    (acks_of-transcript name e.mid [] es ∙ unfold acks_of in refl))),
    )
