-- ===== src/Examples.antt =====
-- The theorems at concrete inputs, and runs of the code.
mod Toy
mod Wire
mod Channel
mod Copies
mod Interrupted
mod Streaming
mod Server
mod Remote
mod Upload
mod Replaced
mod Spliced
