-- ===== src/Ads.antt =====
-- The advertisement dialog of SupportTestDirectory/yo/FIGC_files/FIGC_ads.js: its countdowns, the
-- ready handler that decides whether it opens, and the player's callbacks. Times are milliseconds.
pub mod Countdown
pub mod Modal
