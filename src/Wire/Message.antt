-- ===== src/Wire/Message.antt =====
-- The messages of the Postgres protocol that src/postgres.go and src/query_handler.go handle, with
-- the fields that they use (pgproto3).
use bemi_db.Prelude.{ℕ, String, List, Option}
use bemi_db.Wire.Engine.{Byte}

pub record ParseMessage : Type 0 where
  pub name : String
  pub query : String
  pub parameter_oids : List ℕ

pub record BindMessage : Type 0 where
  pub destination_portal : String
  pub prepared_statement : String
  pub parameter_format_codes : List ℕ
  -- a NULL parameter is `none`
  pub parameters : List (Option (List Byte))

pub data ClientMessage : Type 0 where
  query : String → ClientMessage
  parse : ParseMessage → ClientMessage
  bind : BindMessage → ClientMessage
  -- the object type is a byte, `S` or `P` by the protocol
  describe : ℕ → String → ClientMessage
  execute : String → ClientMessage
  close : ℕ → String → ClientMessage
  sync : ClientMessage
  terminate : ClientMessage
  -- Flush, CopyData and the others, for which no code is written
  other : ClientMessage

-- The errors of the handlers, by the message that they carry.
pub data HandlerError : Type 0 where
  remap_failed : String → HandlerError
  multiple_queries : String → HandlerError
  already_closed : String → HandlerError
  engine_error : String → HandlerError
  couldnt_execute : String → String → HandlerError
  statement_mismatch : String → String → String → HandlerError
  portal_mismatch : String → String → String → HandlerError
  unsupported_parameter : List Byte → String → HandlerError
  no_column_types : String → HandlerError
  no_data_row : String → HandlerError
  result_too_large : ℕ → String → HandlerError

pub record FieldDescription : Type 0 where
  pub name : String
  pub data_type_oid : ℕ

pub data ServerMessage : Type 0 where
  parse_complete bind_complete close_complete no_data empty_query_response ready_for_query :
      ServerMessage
  row_description : List FieldDescription → ServerMessage
  data_row : List (Option String) → ServerMessage
  command_complete : String → ServerMessage
  error_response : HandlerError → ServerMessage
