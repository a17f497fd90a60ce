-- ===== src/Orchestration.antt =====
-- src/lib/orchestration/service.cpp: sessions, jobs, workers and the routing of requests.
pub mod Job
pub mod Worker
pub mod Registry
pub mod Sessions
pub mod Dispatch
pub mod Service
