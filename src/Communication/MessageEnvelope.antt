-- ===== src/Communication/MessageEnvelope.antt =====
-- communication/message_envelope.py: `MessageEnvelope`, its bytes, and the messages that it makes. `P`
-- is the type of a payload, `B` that of bytes, `F` that of a time.
use autonomous_rover_swarm_c.Common.{
  String, string_eq, Option, some, or_else, List, [], ◌∷◌, if◌then◌else◌, ◌==◌, ◌≡◌, refl,
}
use autonomous_rover_swarm_c.Common.Int.{ℤ, pos}
use autonomous_rover_swarm_c.Common.Errors.{Result, ok, err, value_error, ◌>>=◌}

pub data MessageType : Type 0 where
  crdt_sync crdt_delta heartbeat command telemetry task_allocation consensus discovery alert :
      MessageType

-- `msg_type.value`
abbrev pub type_value : MessageType → String
type_value crdt_sync = "crdt_sync"
type_value crdt_delta = "crdt_delta"
type_value heartbeat = "heartbeat"
type_value command = "command"
type_value telemetry = "telemetry"
type_value task_allocation = "task_allocation"
type_value consensus = "consensus"
type_value discovery = "discovery"
type_value alert = "alert"

abbrev pub all_types : List MessageType
all_types =
    crdt_sync ∷ crdt_delta ∷ heartbeat ∷ command ∷ telemetry ∷ task_allocation ∷ consensus
    ∷ discovery ∷ alert ∷ []

-- `MessageType(text)`: the member with that value, or an error.
unfoldable pub find_type : String → List MessageType → Result MessageType
find_type text [] = err value_error
find_type text (t ∷ more) =
    let rest = find_type text more in if type_value t == text then ok t else rest

pub record MessageEnvelope {ℓ} (P F : Type ℓ) : Type ℓ where
  pub msg_type : MessageType
  pub sender : String
  pub receiver : Option String
  pub payload : P
  pub timestamp : F
  pub sequence : ℤ
  pub ttl : ℤ
  pub correlation_id : Option String

-- The dictionary that is packed; `none` is a key that is missing, or for "r" and "cid" also `None`.
pub record Wire {ℓ} (P F : Type ℓ) : Type ℓ where
  pub t : Option String
  pub s : Option String
  pub r : Option String
  pub p : Option P
  pub ts : Option F
  pub seq : Option ℤ
  pub ttl : Option ℤ
  pub cid : Option String

module _ {ℓ} {P F B : Type ℓ} (packb : Wire P F → B) (unpackb : B → Wire P F) where
  unfoldable pub to_binary : MessageEnvelope P F → B
  to_binary m = packb (record {
    t = some (type_value m.msg_type);
    s = some m.sender;
    r = m.receiver;
    p = some m.payload;
    ts = some m.timestamp;
    seq = some m.sequence;
    ttl = some m.ttl;
    cid = m.correlation_id;
  })

  -- `no_payload` is the empty dictionary and `zero_time` is 0.0.
  unfoldable pub from_binary : P → F → B → Result (MessageEnvelope P F)
  unfolding find_type
  from_binary no_payload zero_time data_bytes =
      let decoded = unpackb data_bytes in
      do
        msg_type ← find_type (or_else decoded.t "unknown") all_types
        ok (record {
          msg_type = msg_type;
          sender = or_else decoded.s "";
          receiver = decoded.r;
          payload = or_else decoded.p no_payload;
          timestamp = or_else decoded.ts zero_time;
          sequence = or_else decoded.seq (pos 0);
          ttl = or_else decoded.ttl (pos 60);
          correlation_id = decoded.cid;
        })

find_type-type_value : (t : MessageType) → find_type (type_value t) all_types ≡ ok t
unfolding find_type
find_type-type_value crdt_sync = refl
find_type-type_value crdt_delta = refl
find_type-type_value heartbeat = refl
find_type-type_value command = refl
find_type-type_value telemetry = refl
find_type-type_value task_allocation = refl
find_type-type_value consensus = refl
find_type-type_value discovery = refl
find_type-type_value alert = refl

-- A message is read back from its bytes as it was, if msgpack gives back the dictionaries that it
-- packs.
pub from_binary-to_binary {ℓ} :
    {P F B : Type ℓ} (packb : Wire P F → B) (unpackb : B → Wire P F) (m : MessageEnvelope P F)
    (no_payload : P) (zero_time : F)
    → ((w : Wire P F) → unpackb (packb w) ≡ w)
    → from_binary packb unpackb no_payload zero_time (to_binary packb unpackb m) ≡ ok m
unfolding from_binary to_binary
from_binary-to_binary packb unpackb m no_payload zero_time codec =
    rw codec (rw (find_type-type_value m.msg_type) refl)
