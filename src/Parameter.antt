-- ===== src/Parameter.antt =====
-- Parameters of a node: rclrs/src/parameter.rs and rclrs/src/parameter/.
pub mod Float
pub mod Utf8
pub mod Value
pub mod Rmw
pub mod Range
pub mod Storage
pub mod Declare
pub mod Handles
pub mod Service
pub mod Overrides
pub mod Listing
pub mod Reachable
