-- ===== src/Fmt.antt =====
-- helpers/fmt.js: how the app shows sizes, rates, counts, prices, percentages and times.
pub mod Units
pub mod Duration
pub mod Scaling
pub mod Bytes
pub mod Times
pub mod Loops
pub mod Prices
pub mod Averages
pub mod Dates
pub mod Stamps
pub mod Timestamps
