-- ===== src/Meetings.antt =====
-- api/src/api/screen/meetings.py: the meetings that are read off a screen.
pub mod Parts
pub mod Calls
pub mod Tracker
pub mod Frames
pub mod Logic
pub mod Filed
pub mod Delivery
pub mod Closing
pub mod Opening
pub mod Running
pub mod Warnings
pub mod Windows
pub mod Carried
