-- ===== src/Gate/Resend.antt =====
-- Two sends of one content in core/src/send.rs: both register under the content's hash.
use dropwire.Prelude.{text_eq, nat_eq}
use dropwire.Prelude.Map
use dropwire.Gate.{Gate}
