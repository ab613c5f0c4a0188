-- ===== src/Examples.antt =====
-- The theorems of the library at concrete inputs: a platform, demand streams and an event service
-- on which their hypotheses hold.
mod Setting
mod Attributes
mod Streams
mod Services
mod Queues
mod Sessions
mod Parsing
mod Files
mod Created
mod Samples
mod Requests
mod Bindings
mod Order
mod Sequence
mod Multimaps
mod Programs
mod Databases
mod Displays
