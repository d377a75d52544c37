-- ===== src/Signaling/Protocol.antt =====
-- internal/signaling/protocol.go: the frames, and the check of a client's frame. The JSON codec is a
-- parameter of the model, so a frame on the wire is a text.
use cb_back.Prelude.{Text, codes, text_eq, ◌||◌, Bool, Option, none, some, List, if◌then◌else◌}

abbrev pub type_offer : Text
type_offer = codes "offer"

abbrev pub type_answer : Text
type_answer = codes "answer"

abbrev pub type_candidate : Text
type_candidate = codes "candidate"

abbrev pub type_bye : Text
type_bye = codes "bye"

abbrev pub type_chat : Text
type_chat = codes "chat"

abbrev pub type_welcome : Text
type_welcome = codes "welcome"

abbrev pub type_peer_joined : Text
type_peer_joined = codes "peer-joined"

abbrev pub type_peer_left : Text
type_peer_left = codes "peer-left"

pub record Peer : Type 0 where
  pub id : Text
  pub display_name : Text

-- What a client sends: there is no field for the sender.
pub record Inbound : Type 0 where
  pub type : Text
  pub to : Text
  pub payload : Text

-- What the server sends.
pub record Outbound : Type 0 where
  pub type : Text
  pub from : Text
  pub payload : Text
  pub peers : List Peer

-- The switch of `parseInbound`.
unfoldable pub is_relayed : Text → Bool
is_relayed t =
    text_eq t type_offer
    || text_eq t type_answer
    || text_eq t type_candidate
    || text_eq t type_bye
    || text_eq t type_chat

-- `none` is either error; `unmarshal` is `json.Unmarshal` into an `Inbound`.
unfoldable pub parse_inbound : (Text → Option Inbound) → Text → Option Inbound
unfolding is_relayed
parse_inbound unmarshal frame = elim (unmarshal frame) [
  | none ↦ none
  | some decoded ↦ if is_relayed decoded.type then some decoded else none
]
