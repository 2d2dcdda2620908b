-- ===== src/Digest.antt =====
-- The digest writer (the package digestwriter): messages of the clusters' workloads become rows that
-- link each cluster to the images it runs.
pub mod Message
pub mod Consumer
pub mod Storage
