-- ===== src/Tests.antt =====
-- The theorems at concrete inputs, and runs of the definitions.
pub mod Cookies
pub mod Ads
pub mod Timelines
pub mod Menus
pub mod Counters
pub mod Lives
pub mod Notices
pub mod Pages
pub mod Sessions
pub mod Widgets
pub mod Plugins
pub mod Storages
pub mod Servers
pub mod Workers
