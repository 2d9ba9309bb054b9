-- ===== src/Tests.antt =====
-- Each property at a concrete input where its conditions hold.
mod Data
mod Link
mod Wires
mod Store
mod Node
mod Web
mod Running
mod Sync
mod Logging
mod Delays
mod Screens
mod Channel
mod Pager
