-- ===== src/Schedule.antt =====
-- One-time and daily schedules of devices (services/scheduler, services/mcp/DeviceSchedule.service.ts).
pub mod Calendar
pub mod DateTime
pub mod Queue
pub mod Service
pub mod Jobs
pub mod Log
pub mod Tools
