-- ===== src/Chat/Wire/Rows.antt =====
-- Timeline rows, replies and pages on the wire (desktop/core/src/chat_wire/protocol.rs). A row's
-- `metadata` is a JSON value and its `blocks` hold coordinates, which the timeline only carries:
-- they are left out.
use fermix_linux.Base.{ℕ, List, Option, String}

pub record MediaRef : Type 0 where
  pub ref : String
  pub kind : String
  pub mime : String
  pub size_bytes : ℕ
  pub sha256 : Option String
  pub filename : Option String
  pub caption : Option String

pub record LinkPreview : Type 0 where
  pub url : String
  pub site : String
  pub title : String
  pub link : Option String
  pub description : Option String
  pub image_ref : Option String

pub record Row : Type 0 where
  pub server_seq : ℕ
  pub role : String
  pub text : String
  pub ts : Option String
  pub client_msg_id : Option String
  pub in_reply_to : Option String
  pub kind : Option String
  pub media_refs : List MediaRef
  pub link_previews : List LinkPreview
  pub skipped : ℕ

pub record Reply : Type 0 where
  pub turn_id : String
  pub server_seq : ℕ
  pub text : String
  pub ts : Option String
  pub skipped : ℕ

pub record Page : Type 0 where
  pub messages : List Row
  pub history_head_seq : ℕ
  pub next_after_seq : Option ℕ
  pub next_before_seq : Option ℕ
  pub skipped : ℕ

pub record Grant : Type 0 where
  pub ref : String
  pub path : String
  pub kind : String
  pub mime : String
  pub size_bytes : ℕ
  pub sha256 : String
