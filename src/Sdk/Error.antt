-- ===== src/Sdk/Error.antt =====
-- sdk/src/error.rs, and the errors of the two handler tasks, which are texts there. The texts are not modelled.
pub data SdkError : Type 0 where
  connection_failed disconnected timeout encoder_error decoder_error : SdkError
  resampler_error lock_error channel_closed invalid_input : SdkError

pub data HandlerError : Type 0 where
  write_error read_error parse_error send_channel_closed : HandlerError
