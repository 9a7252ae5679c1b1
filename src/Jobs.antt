-- ===== src/Jobs.antt =====
-- Background jobs: the table `jobs` of backend/database/models.py with its queries in
-- backend/database/crud.py, and backend/services/job_service.py above them.
mod Tests
pub mod Store
pub mod Service
pub mod Keywords
pub mod Runner
