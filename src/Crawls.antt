-- ===== src/Crawls.antt =====
-- Crawl jobs: the functions of backend/database/crud.py on `crawl_jobs`, its pages and its issues, the
-- handlers of backend/api/crawl_routes.py, and the registry in memory of
-- backend/services/crawl_lifecycle_service.py.
mod Tests
pub mod Rows
pub mod Tables
pub mod Stats
pub mod Requests
pub mod Lifecycle
pub mod Routes
