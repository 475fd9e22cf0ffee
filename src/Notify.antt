-- ===== src/Notify.antt =====
-- internal/notify: what is worth telling a human about a drill, and the delivery of the message.
pub mod Story
pub mod Collapse
pub mod Deliver
pub mod Dispatcher
pub mod Attempt
pub mod Shortcut
pub mod Keeps
