-- ===== src/TradeIntent.antt =====
-- apps/api/src/trade-intent/trade-intent.service.ts: the service that records trade intents, decides
-- them, and executes them on paper or with real money.
pub mod Policy
pub mod Mode
pub mod Real
pub mod Process
pub mod Record
pub mod Keeps
pub mod Orders
pub mod Quotes
pub mod Placing
pub mod Routing
pub mod Safety
pub mod Whole
pub mod Bounds
pub mod Exits
pub mod Recording
pub mod Decisions
pub mod Refines
