-- ===== src/Examples.antt =====
-- Runs of the code at chosen inputs, and the theorems at these inputs.
mod Wire
mod Relaying
mod Serving
mod Client
mod Voicing
mod Desk
mod Settings
mod Mirrored
