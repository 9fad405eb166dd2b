-- ===== src/Experiment/Copy/Chunks.antt =====
-- web/js/pages/experiment/core/copy/endpoint.js: which observations are sent, and when the copying stops.
use sigopt_server.Base.{List}
