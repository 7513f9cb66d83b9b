-- ===== src/Chat/Wire/Lists.antt =====
-- The owner's lists on the wire (desktop/core/src/chat_wire/protocol.rs).
use fermix_linux.Base.{ℕ, Bool, List, Option, String}

pub record ListEntry : Type 0 where
  pub list_id : String
  pub title : String
  pub folder : Option String
  pub opened : ℕ
  pub done : ℕ
  pub rev : ℕ

pub record ListRow : Type 0 where
  pub row_id : String
  pub kind : String
  pub text : String
  pub note : Option String
  pub done : Option Bool
  pub done_at : Option String

pub record RemovedRow : Type 0 where
  pub row : ListRow
  pub removed_at : String

-- `List`
pub record OwnerList : Type 0 where
  pub list_id : String
  pub title : String
  pub rev : ℕ
  pub rows : List ListRow
  pub removed : List RemovedRow
  pub removed_at : Option String

-- One change to a list, its fields in the source's order.
pub data ListOp : Type 0 where
  create : String → Option String → ListOp
  add : String → Option String → Option String → Option String → ListOp
  check uncheck : String → ListOp
  edit : String → Option String → Option String → ListOp
  move : String → Option String → Option String → Option String → ListOp
  section : String → Option String → ListOp
  remove folder rename : String → ListOp
  remove_list clear_done : ListOp
  restore : Option String → Option String → ListOp
