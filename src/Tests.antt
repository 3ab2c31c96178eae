-- ===== src/Tests.antt =====
-- The theorems at concrete inputs.
mod Strategy
mod Gate
mod Sharing
mod Paper
mod Safety
mod PaperGate
mod Store
mod Clears
mod Windows
mod Live
mod Booking
mod Accounting
mod MarketData
mod RunState
