-- ===== src/Usage.antt =====
-- backend/internal/app/usage.go: the records of usage, as users see them: what is summed up from
-- them, which page of them is shown, and what is hidden in their details.
pub mod Statistics
pub mod Scope
pub mod Redaction
mod Tests
