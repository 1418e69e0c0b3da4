-- ===== src/Auth.antt =====
-- src/auth: the policy that says what a role may do, the verification keys and the decision on a
-- request.
pub mod Policy
pub mod Closure
pub mod Allows
pub mod Keys
pub mod Service
pub mod Resolve
pub mod Admission
pub mod Constraints
pub mod Roles
mod Examples
