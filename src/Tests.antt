-- ===== src/Tests.antt =====
-- Concrete runs of the model, on which its theorems say something.
pub mod Data
pub mod Store
pub mod Manager
pub mod Pool
pub mod Api
pub mod Scrcpy
pub mod Urls
pub mod Panel
pub mod Upkeep
pub mod Node
pub mod Config
pub mod Adb
pub mod Client
pub mod Wall
pub mod Stream
pub mod Pictures
pub mod Mcp
pub mod Ui
pub mod Server
pub mod Swipe
pub mod Start
