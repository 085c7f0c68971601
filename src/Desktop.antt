-- ===== src/Desktop.antt =====
-- The desktop program: desktop/src, without what is drawn. The user-interface library runs the tasks
-- that an update returns; a task is the list of what it is to do.
pub mod Message
pub mod Room
pub mod Config
pub mod Audio
pub mod Login
pub mod Samples
pub mod Notification
