-- ===== src/Agent.antt =====
-- The agent (core/src/octoforge_core/agent): the message router (`Router`, with `Routing` about its
-- decisions), the loop of a run (`Events`, `Loop`, with `Transcript` about the events that it yields,
-- `Replies` about the messages that it appends, and `Answering` about the answer), what a run is shown
-- of its dialog (`Branch`), how the events reach the subscribers (`Fanout`), the digest of a message
-- that the router reads (`Preview`), and the collections of forwarded material with what the runner
-- does with a routing decision (`Material`).
pub mod Router
pub mod Routing
mod Samples
pub mod Events
pub mod Loop
pub mod Transcript
pub mod Replies
mod LoopSamples
pub mod Answering
pub mod Branch
pub mod Fanout
pub mod Preview
pub mod Material
mod BranchSamples
mod FanoutSamples
mod MaterialSamples
