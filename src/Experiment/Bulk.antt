-- ===== src/Experiment/Bulk.antt =====
-- web/js/pages/experiment: observations that leave and enter as CSV files. Csv guards the cells,
-- Columns names the columns, Download makes the rows, Observations reads them, and Upload and Form
-- send them in batches.
pub mod Csv
pub mod Calls
pub mod Columns
pub mod Cut
pub mod Download
pub mod Form
pub mod Observations
pub mod Upload
mod Tests
