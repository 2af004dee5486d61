-- ===== src/Steps.antt =====
-- core/steps: the procedures of the plans, over the services of core/ports.
-- A step's pointer to the status of a volume or of a network interface is the entry of the
-- microvm's status under the key that the plan looked up; a nil pointer is a missing entry. The
-- entries are never replaced while a plan runs, only added, so that the two agree.
pub mod Status
pub mod Runtime
pub mod Process
pub mod Network
pub mod CloudInit
pub mod Step
pub mod Settle
pub mod Frame
