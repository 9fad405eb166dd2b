-- ===== src/Net.antt =====
-- web/js/net: paging through a fetcher, polling and data sources.
pub mod ArrayPager
pub mod ExhaustivelyPage
pub mod DataSource
pub mod Errors
pub mod History
pub mod Poller
pub mod StreamingPager
mod Tests
