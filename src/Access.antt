-- ===== src/Access.antt =====
-- Who may manage whom (src/auth and src/user-management).
pub mod Actor
pub mod Members
pub mod Roles
pub mod Passwords
pub mod Deliveries
pub mod Offices
pub mod Requests
mod Tests
