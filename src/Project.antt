-- ===== src/Project.antt =====
-- web/js/pages/project: the runs of a project as columns to plot, and what of them is selected.
pub mod Colors
pub mod Dimensions
pub mod Gradients
pub mod Slice
pub mod Dashboards
mod Tests
