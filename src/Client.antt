-- ===== src/Client.antt =====
-- The browser's side of the application: src/lib/client, and the state of
-- src/components/ScheduleApp.tsx.
pub mod CourseLoad
pub mod Screen
pub mod Time
mod Tests
