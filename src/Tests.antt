-- ===== src/Tests.antt =====
-- The theorems of the properties at concrete inputs.
mod Deposits
mod Deliveries
mod Hooks
mod Keys
mod Access
mod Money
mod Sagas
mod Books
mod Payouts
mod Replays
mod Quotes
mod Intents
mod Retries
mod Credits
mod Transfers
mod Walks
mod Bookings
