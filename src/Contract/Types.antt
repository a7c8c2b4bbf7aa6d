-- ===== src/Contract/Types.antt =====
-- live-runner/contract.go: the wire types of the paid-session contract.
-- A string that the code only compares with constants is a data type with a constructor for each
-- constant and one for every other string. A string that holds a time is a `Stamp`.
use livepeer_modules_transco.Prelude.{ℕ, Bytes, Bool, Option, List}

-- "active", "ended", "failed".
pub data State : Type 0 where
  active ended failed : State
  unknown : Bytes → State

-- The event types of ValidateEventV1, such as "session.ladder.restart".
pub data EventType : Type 0 where
  session_started session_heartbeat session_ladder_restart session_output_stalled : EventType
  session_usage_tick session_failed session_ended : EventType
  unknown_event : Bytes → EventType

-- "waiting", "producing", "stalled".
pub data OutputState : Type 0 where
  waiting producing stalled : OutputState
  unknown_output : Bytes → OutputState

-- A time stamp as text: the empty string, a text that time.Parse refuses, or the text of an
-- instant. An instant counts nanoseconds from Go's zero time.
pub data Stamp : Type 0 where
  unset : Stamp
  malformed : Bytes → Stamp
  at : ℕ → Stamp

-- What encoding/json decodes. `instant` is a string that time.Time.Format wrote.
mutual
  pub data Json : Type 0 where
    null : Json
    boolean : Bool → Json
    number : Bytes → Json
    text : Bytes → Json
    instant : ℕ → Json
    array : Items → Json
    object : Members → Json

  pub data Items : Type 0 where
    no_items : Items
    item : Json → Items → Items

  pub data Members : Type 0 where
    no_members : Members
    member : Bytes → Json → Members → Members

-- A json.RawMessage: its length in bytes, and its value if it is valid JSON.
pub record RawMessage : Type 0 where
  pub size : ℕ
  pub value : Option Json

pub record Usage : Type 0 where
  pub unit : Bytes
  pub total : ℕ  -- uint64

pub record RunnerEvent : Type 0 where
  pub event_id : Bytes
  pub sequence : ℕ  -- uint64
  pub event_type : EventType
  pub event_time : Stamp
  pub state : State
  pub usage : Option Usage
  pub close_reason : Option Bytes
  pub details : RawMessage

pub record EventCursor : Type 0 where
  pub sequence : ℕ
  pub usage_total : ℕ
  pub has_usage : Bool
  pub seen_ids : List Bytes

pub record S3SessionStorage : Type 0 where
  pub endpoint : Bytes
  pub region : Bytes
  pub bucket : Bytes
  pub prefix : Bytes
  pub access_key_id : Bytes
  pub secret_access_key : Bytes
  pub session_token : Bytes
  pub force_path_style : Bool

pub record Storage : Type 0 where
  pub kind : Bytes
  pub s3 : Option S3SessionStorage

pub record SessionParams : Type 0 where
  pub schema : Bytes
  pub publisher_mode : Bytes
  pub output_profile : Bytes
  pub metering_rendition : Bytes
  pub storage : Storage

pub record RunnerCreateRequest : Type 0 where
  pub session_id : Bytes
  pub work_id : Bytes
  pub capability : Bytes
  pub offering : Bytes
  pub session_params : SessionParams
  pub callback_url : Bytes
  pub callback_token : Bytes

pub record Grant : Type 0 where
  pub id : Bytes
  pub operations : List Bytes
  pub secret : Bytes
  pub expires_at : Stamp

pub record RuntimePublic : Type 0 where
  pub rtmp_url : Bytes
  pub hls_url : Bytes
  pub key_issue_url : Bytes
  pub status_url : Bytes

pub record RuntimeDescriptor : Type 0 where
  pub schema : Bytes
  pub public : RuntimePublic
  pub grants : List Grant

pub record RunnerCreateResponse : Type 0 where
  pub runner_session_id : Bytes
  pub runtime : RuntimeDescriptor

pub record StreamKeyIssueRequest : Type 0 where
  pub request_id : Bytes
  pub audience : Bytes

pub record StreamKeyIssueResponse : Type 0 where
  pub request_id : Bytes
  pub stream_key : Bytes
  pub expires_at : Stamp

-- What net/url.Parse returns of a text that it accepts, as far as the runners read it.
pub record Url : Type 0 where
  pub scheme : Bytes
  pub host : Bytes
  pub has_user : Bool
