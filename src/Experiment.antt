-- ===== src/Experiment.antt =====
-- web/js/experiment: an experiment as the API gives it, and the editor that creates and changes one.
pub mod Bulk
pub mod Copy
pub mod Model
pub mod Editor
pub mod Submission
pub mod Ui
pub mod State
pub mod ParameterTable
mod Tests
