-- ===== src/Orgs.antt =====
-- The members and invitations of one organization: the handlers of backend/api/org_routes.py with the
-- functions of backend/database/crud.py that they call. Every query filters by the organization, so
-- the rows of the others are left out, and so are the audit events.
mod Tests
pub mod Rows
pub mod Members
pub mod Invitations
pub mod Ownership
