-- ===== src/Tests.antt =====
-- Runs of the models, and the theorems at concrete inputs.
mod Texts
mod Deciders
mod Parts
mod Submission
mod Children
mod Runs
mod Requests
mod Sorting
mod Errors
mod Files
mod Calls
mod Queues
mod Daemons
mod Chores
mod Moves
mod Messages
