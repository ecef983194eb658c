-- ===== src/Examples.antt =====
-- Runs of the model on concrete inputs, one module for each part of the program.
mod Budget
mod Headers
mod Stream
mod Receive
mod Router
mod Paths
mod Frame
mod Session
mod StmtCache
mod ChunkedBody
