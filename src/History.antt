-- ===== src/History.antt =====
-- The transcripts held in memory (store.go). `nowMS` is an argument; removing the files that old
-- releases wrote is left out.
pub mod Names
pub mod Receipts
pub mod Shown
pub mod Transcript
use lanrunner.Common.{
  ℕ, zero, suc, ◌+◌, ◌-◌, Bool, true, false, List, [], ◌∷◌, ◌++◌, map, Option, none, some, ltb, leb,
  ◌==◌, ◌&&◌, ◌||◌, if◌then◌else◌, length, drop, take, Text, codes, byte_len, same,
}
use lanrunner.Common.Dict.{Dict, lookup, insert, erase}

pub record HistEntry : Type 0 where
  pub kind : Text
  pub ts : ℕ
  pub conv : Text
  pub fp : Text
  pub nick : Text
  pub self : Bool
  pub body : Text
  pub mid : Text
  pub delivered : ℕ

abbrev pub History : Type 0
History = Dict (List HistEntry)

abbrev pub is_hex : ℕ → Bool
is_hex r = leb b'0' r && leb r b'9' || leb b'a' r && leb r b'f'

hex_only : Text → Text
hex_only [] = []
hex_only (r ∷ conv) = if is_hex r then r ∷ hex_only conv else hex_only conv

-- What remains is ASCII, so that its bytes are its characters.
pub safe_name : Text → Text
safe_name conv =
    if same conv (codes "room")
    then codes "room"
    else if same (hex_only conv) []
    then codes "unknown"
    else if ltb 32 (byte_len (hex_only conv))
    then take 32 (hex_only conv)
    else hex_only conv

-- A missing key reads as nil.
or_nil : Option (List HistEntry) → List HistEntry
or_nil none = []
or_nil (some entries) = entries

pub stored : History → Text → List HistEntry
unfolding or_nil
stored h name = or_nil (lookup name h)

pub append : History → HistEntry → History
append h e = insert (safe_name e.conv) (stored h (safe_name e.conv) ++ e ∷ []) h

abbrev pub ack : Text → Text → ℕ → HistEntry
ack conv mid now = record {
  kind = codes "ack";
  ts = now;
  conv = conv;
  fp = [];
  nick = [];
  self = false;
  body = [];
  mid = mid;
  delivered = 0;
}

pub mark_delivered : History → Text → Text → ℕ → History
mark_delivered h conv mid now = if same mid [] then h else append h (ack conv mid now)

-- The two results of the first loop of `Load`: the messages, and the count of each receipt.
pub messages : List HistEntry → List HistEntry
messages [] = []
messages (e ∷ es) = if same e.kind (codes "ack") then messages es else e ∷ messages es

pub acks_of : Text → List HistEntry → ℕ
acks_of mid [] = 0
acks_of mid (e ∷ es) =
    (if same e.kind (codes "ack") && same e.mid mid then 1 else 0) + acks_of mid es

pub newest : ℕ → List HistEntry → List HistEntry
newest limit msgs =
    if ltb 0 limit && ltb limit (length msgs) then drop (length msgs - limit) msgs else msgs

pub load : History → Text → ℕ → List HistEntry
load h conv limit =
    let entries = stored h (safe_name conv) in
    map (λ (e : HistEntry). record e { delivered = acks_of e.mid entries })
      (newest limit (messages entries))

pub delete : History → Text → History
delete h conv = erase (safe_name conv) h

pub conversations : History → List Text
conversations h = map (λ (e : Text × List HistEntry). e.0) h

pub close : History → History
close h = []

-- `validConversationID` (httpui.go).
all_hex : Text → Bool
all_hex [] = true
all_hex (r ∷ conv) = if is_hex r then all_hex conv else false

unfoldable pub valid_conversation_id : Text → Bool
unfolding all_hex
valid_conversation_id conv =
    if same conv (codes "room")
    then true
    else if ltb (byte_len conv) 8 || ltb 128 (byte_len conv)
    then false
    else all_hex conv
