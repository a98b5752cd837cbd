-- ===== src/Workflow.antt =====
-- app/agent/workflow.py: what becomes of the answers of the map tools.
pub mod Geometry
pub mod Consistency
pub mod Results
pub mod Acceptance
pub mod Execution
pub mod Graph
pub mod Phrases
pub mod Planning
pub mod Queries
pub mod Routing
pub mod Criteria
pub mod Housing
pub mod References
pub mod Answering
pub mod Candidates
pub mod HousingMap
pub mod Preferences
pub mod Summary
mod Examples
