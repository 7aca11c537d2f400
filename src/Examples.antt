-- ===== src/Examples.antt =====
-- Concrete inputs for the theorems of the development.
mod Queue
mod Dispatch
mod EventRows
mod Supervision
mod Schedules
mod Contacts
mod Fleet
mod Registry
mod Streams
mod Audits
mod Running
mod Launches
