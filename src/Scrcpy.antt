-- ===== src/Scrcpy.antt =====
-- internal/scrcpy: the messages to and from the scrcpy server.
pub mod BigEndian
pub mod Control
pub mod Stream
pub mod Server
pub mod Frames
pub mod Pointer
pub mod Swipe
pub mod Fingers
pub mod Swiped
