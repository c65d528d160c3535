-- ===== src/Tests.antt =====
-- The development's results at concrete inputs: the test data that the children share.
mod Machines
mod Processor
mod Debugger
mod Instructions
mod Supervisor
mod Messages
mod Start
