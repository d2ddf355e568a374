-- ===== src/Rpc/Errors.antt =====
-- `ControlError` of src/control_rpc/protocol.rs. A message is data in place of its text, and the
-- details are those that the modelled code attaches: the byte limit of a frame.
use fluxcope.Common.{ℕ, Bool, true, false, Option, none, some}
use fluxcope.Common.Text.{Text}

pub data ControlErrorCode : Type 0 where
  invalid_argument no_instances instance_required instance_not_found : ControlErrorCode
  instance_generation_conflict instance_unavailable rpc_version_mismatch : ControlErrorCode
  rpc_frame_too_large resource_limit capture_not_found capture_revision_conflict : ControlErrorCode
  settings_revision_conflict mapping_validation_failed tui_draft_conflict : ControlErrorCode
  service_unavailable unsupported_body_encoding deadline_exceeded cancelled : ControlErrorCode
  undecodable_body body_not_textual not_found malformed_json json_depth_limit : ControlErrorCode
  json_size_limit internal_error : ControlErrorCode

pub data ErrorMessage : Type 0 where
  frame_prefix_truncated frame_payload_truncated frame_allocation_failed : ErrorMessage
  frame_exceeds_limit lease_accounting_failed response_parsing_cancelled : ErrorMessage
  reported : Text → ErrorMessage

pub record ControlError : Type 0 where
  pub code : ControlErrorCode
  pub message : ErrorMessage
  pub retryable : Bool
  pub max_bytes : Option ℕ

abbrev pub argument_error : ErrorMessage → ControlError
argument_error message = record {
  code = invalid_argument;
  message = message;
  retryable = false;
  max_bytes = none;
}

abbrev pub unavailable_error : ErrorMessage → ControlError
unavailable_error message = record {
  code = instance_unavailable;
  message = message;
  retryable = true;
  max_bytes = none;
}

abbrev pub cancelled_error : ErrorMessage → ControlError
cancelled_error message = record {
  code = cancelled;
  message = message;
  retryable = true;
  max_bytes = none;
}

abbrev pub frame_too_large : ℕ → ControlError
frame_too_large max_bytes = record {
  code = rpc_frame_too_large;
  message = frame_exceeds_limit;
  retryable = false;
  max_bytes = some max_bytes;
}
