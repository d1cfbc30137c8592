-- ===== src/Access.antt =====
-- internal/core/access/access.go: the policy of a deployment, accounts that hold CRUD grants over
-- branch globs. The children hold the grants with their parser, the globs and the checker; below
-- them stand the proofs.
pub mod Glob
pub mod Grant
pub mod Checker
mod Tests
