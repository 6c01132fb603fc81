-- ===== src/Tests.antt =====
-- Concrete runs of the services.
mod LockRuns
mod QueueRuns
mod RecordRuns
mod CalendarRuns
mod RoleRuns
mod RoutingRuns
mod SessionRuns
mod ValuationRuns
mod RequestRuns
mod ApprovalRuns
