-- ===== src/Message.antt =====
-- protocol/dubbo/dubbo/request.go and respond.go: the messages of the dubbo protocol. The lists of
-- arguments and the maps of attachments are values, since no two messages share one.
pub mod Attachments
use mesher.Prelude.{
  ℕ, ◌+◌, ◌%◌, ◌^◌, List, [], Option, none, some, Bool, true, false, ◌&&◌, if◌then◌else◌,
}
use mesher.Prelude.Text.{Text, Table, codes, is_empty, lookup, insert, erase}
use mesher.Wire.Object.{Object, nil, text, int32, blob, array, dict, other}

abbrev pub dubbo_version_key : Text
dubbo_version_key = codes "dubbo"

abbrev pub dubbo_version : Text
dubbo_version = codes "2.0.0"

abbrev pub path_key : Text
path_key = codes "path"

abbrev pub version_key : Text
version_key = codes "version"

abbrev pub heart_beat_event : Text
heart_beat_event = []

-- The status of a response.
abbrev pub status_ok : ℕ
status_ok = 20

abbrev pub bad_response : ℕ
bad_response = 50

abbrev pub service_not_found : ℕ
service_not_found = 60

abbrev pub service_error : ℕ
service_error = 70

abbrev pub server_error : ℕ
server_error = 80

-- `Argument` of protocol/dubbo/utils/typeutil.go.
pub record Argument : Type 0 where
  pub java_type : Text
  pub value : Object

-- `DubboRPCInvocation`. No attachments are a nil map; a nil slice of arguments is the empty list,
-- which the code does not tell from it.
pub record Invocation : Type 0 where
  pub method_name : Text
  pub version : Text
  pub arguments : List Argument
  pub attachments : Option (Table Text)
  pub url_path : Text

pub record Request : Type 0 where
  pub invocation : Invocation
  pub open invocation use *
  pub msg_id : ℕ
  pub status : ℕ
  pub event : Bool
  pub two_way : Bool
  pub is_broken : Bool
  pub payload : Object

-- `new(Request)`
abbrev pub zero_request : Request
zero_request = record {
  invocation = record {
    method_name = [];
    version = [];
    arguments = [];
    attachments = none;
    url_path = [];
  };
  msg_id = 0;
  status = 0;
  event = false;
  two_way = false;
  is_broken = false;
  payload = nil;
}

-- The counter `GCurMSGID` is an int64; the new id is the new value.
unfoldable pub generate_msg_id : ℕ → ℕ
generate_msg_id current = (current + 1) % 2 ^ 64

unfoldable pub new_dubbo_request : ℕ → Request × ℕ
unfolding generate_msg_id
new_dubbo_request current =
    let id = generate_msg_id current in
    (
      record zero_request {
        invocation = record {
          method_name = [];
          version = dubbo_version;
          arguments = [];
          attachments = some [];
          url_path = [];
        };
        msg_id = id;
        status = status_ok;
        two_way = true;
      },
      id,
    )

unfoldable pub set_event : Request → Text → Request
set_event p event = record p { event = true; payload = text event }

-- `HeartBeatEvent == p.data`: the value is a string, and the empty one.
unfoldable pub is_heart_beat_value : Object → Bool
is_heart_beat_value (text s) = is_empty s
is_heart_beat_value other_value = false

unfoldable pub is_heartbeat : Request → Bool
is_heartbeat p = p.event && is_heart_beat_value p.payload

unfoldable pub get_attachment : Invocation → Text → Text → Text
get_attachment p key default = elim p.attachments [
  | none ↦ default
  | some m ↦ elim (lookup key m) [ none ↦ default | some v ↦ v ]
]

-- For the empty value the source deletes the entry whose key is the value.
unfoldable pub set_attachment : Invocation → Text → Text → Invocation
set_attachment p key value =
    let m : Table Text = elim p.attachments [ none ↦ [] | some m ↦ m ] in
    if is_empty value
    then record p { attachments = some (erase value m) }
    else record p { attachments = some (insert key value m) }

-- `DubboRsp` with its embedded `DubboRPCResult`.
pub record DubboRsp : Type 0 where
  pub attachments : Option (Table Text)
  pub exception : Object
  pub value : Object
  pub id : ℕ
  pub version : Text
  pub status : ℕ
  pub event : Bool
  pub error_msg : Text

abbrev pub zero_rsp : DubboRsp
zero_rsp = record {
  attachments = none;
  exception = nil;
  value = nil;
  id = 0;
  version = [];
  status = 0;
  event = false;
  error_msg = [];
}

unfoldable pub init : DubboRsp → DubboRsp
init p = record p {
  id = 0;
  version = codes "0.0.0";
  status = status_ok;
  event = false;
  error_msg = [];
}
