-- ===== src/Lint.antt =====
-- scripts/cpplint.py: the style checker that the repository runs on its C++ code.
pub mod Regex
pub mod Categories
pub mod State
pub mod Suppress
pub mod Report
pub mod Headers
pub mod IncludeState
pub mod Includes
pub mod Modules
pub mod Expression
pub mod FunctionState
pub mod FileChecks
pub mod HeaderGuard
pub mod LineChecks
pub mod Semicolons
pub mod EmptyBodies
pub mod Braces
pub mod Spacing
pub mod Operators
pub mod Comments
pub mod Strings
pub mod Blocks
pub mod Templates
pub mod Nesting
pub mod Constructs
