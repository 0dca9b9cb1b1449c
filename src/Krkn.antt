-- ===== src/Krkn.antt =====
-- pkg/krknai: the checks of what the user gives to a krkn-ai run (params_validation.go), and its
-- orchestration (krknai.go).
pub mod Query
pub mod Runs
pub mod Inputs
pub mod Results
