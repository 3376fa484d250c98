-- ===== src/Tests.antt =====
-- The theorems at concrete inputs, with instances of the parameters for which their laws are proved.
mod Instances
mod Replies
mod Wire
mod Server
mod Table
mod Readdir
mod Svc
mod Client
mod Mount
mod Rpc
mod Faults
mod Meaning
mod Walk
mod Super
mod Story
mod Crash
