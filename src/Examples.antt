-- ===== src/Examples.antt =====
-- Tests of the definitions, and each theorem about the code at an input where its hypotheses hold.
mod Calls
mod Groups
mod Tiles
mod Formats
mod Marks
mod Providers
mod Pages
mod Routes
mod Rounds
mod Polls
mod Markup
mod Visits
