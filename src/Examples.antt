-- ===== src/Examples.antt =====
-- Concrete people, tools and tables, and the theorems at them.
pub mod People
mod Rules
mod Rows
mod Plans
mod Replies
mod Requests
mod Grades
mod Checks
mod Batches
mod Arguments
mod Calls
