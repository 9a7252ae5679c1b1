-- ===== src/Workspaces.antt =====
-- Projects and websites of an organization: backend/api/project_routes.py and
-- backend/api/website_routes.py with the functions of backend/database/crud.py that they call.
mod Tests
pub mod Slugs
pub mod Rows
pub mod Projects
pub mod Bodies
pub mod Domains
pub mod Websites
pub mod Listings
pub mod ProjectRoutes
pub mod WebsiteRoutes
pub mod Requests
pub mod Steps
pub mod Validity
pub mod Access
