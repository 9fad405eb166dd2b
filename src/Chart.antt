-- ===== src/Chart.antt =====
-- web/js/chart: what the charts compute before plotly draws them.
pub mod BestSeen
pub mod Range
pub mod Shaded
pub mod Sides
pub mod Thresholds
pub mod Values
mod Tests
