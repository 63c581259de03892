-- ===== src/Connection.antt =====
-- Connections, their permissions and decisions, of src/state_connection.rs.
pub mod Permissions
pub mod Types
pub mod Rows
pub mod Statements
pub mod Decide
pub mod Expire
pub mod Admit
pub mod Challenges
pub mod Moves
pub mod Effects
pub mod Lifecycle
pub mod Tests
