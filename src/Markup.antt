-- ===== src/Markup.antt =====
-- What the components of routes/ return: the markup of the pages, with its links and its tables.
pub mod Html
pub mod Texts
pub mod Deals
pub mod CardTexts
pub mod GroupTexts
pub mod Groups
pub mod Providers
pub mod ProviderTexts
pub mod Repair
pub mod Content
pub mod Tiles
pub mod Status
pub mod StatusTexts
pub mod App
pub mod Rendering
pub mod Twins
