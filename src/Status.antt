-- ===== src/Status.antt =====
-- routes/Status.js: the tiles of the status page.
pub mod Meter
pub mod Rates
pub mod Cells
pub mod StorageTiles
pub mod DealTiles
pub mod RetrievalTiles
pub mod InternalTiles
pub mod Rendering
pub mod Percentages
pub mod DealCounts
pub mod Upload
pub mod UploadRates
pub mod UploadTimer
pub mod UploadDecay
pub mod Fetch
pub mod Rounds
pub mod Awaits
pub mod Interleaved
pub mod Alone
pub mod Late
pub mod Agreement
pub mod Wallet
pub mod WalletClicks
pub mod Timed
pub mod WalletTable
pub mod Tables
pub mod Replies
