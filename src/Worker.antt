-- ===== src/Worker.antt =====
-- backend_repeat/internal/worker: the consumers of the queues. A message body that is no JSON of
-- the expected event is `none`; the loops over the channel are left out.
pub mod Delivery
pub mod Like
pub mod Social
pub mod Comment
pub mod Outbox
pub mod Fanout
