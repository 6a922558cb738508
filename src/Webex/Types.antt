-- ===== src/Webex/Types.antt =====
-- Views of the types of the crate webex-headless-messenger: the fields that the source uses.
use webex_generic_account_bo.Base.{ℕ, Option, List, Duration, ℤ}
use webex_generic_account_bo.Text.{Text}

pub record Message : Type 0 where
  pub id : Option Text
  pub room_id : Option Text
  pub parent_id : Option Text
  pub person_id : Option Text
  pub person_email : Option Text
  pub body_text : Option Text  -- `text`
  pub markdown : Option Text
  pub html : Option Text
  pub mentioned_people : List Text
  pub created : Option ℤ  -- milliseconds since the epoch

pub record CreateMessage : Type 0 where
  pub room_id : Option Text
  pub parent_id : Option Text
  pub markdown : Option Text

pub record ApiError : Type 0 where
  pub status : ℕ
  pub retry_after : Option Duration
  pub display : Text

-- The crate's error: the variant that the source inspects, and any other with its `Display` text.
pub data WebexError : Type 0 where
  api : ApiError → WebexError
  other : Text → WebexError

-- The sidecar event, its `data` read as a message: `unreadable` where `from_value` fails, with the text
-- of the failure.
pub data EventData : Type 0 where
  payload : Message → EventData
  unreadable : Text → EventData

pub record SidecarEvent : Type 0 where
  pub version : ℕ
  pub resource : Text
  pub event : Text
  pub contents : EventData
