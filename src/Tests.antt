-- ===== src/Tests.antt =====
-- Sample inputs, and the theorems of the library applied to them.
pub mod Samples
pub mod ParameterTests
pub mod ConversionTests
pub mod SequenceTests
pub mod WaitSetTests
pub mod TimeTests
pub mod ListingTests
pub mod OverridesTests
pub mod ClientTests
pub mod ExecutorTests
pub mod ClockTests
pub mod QosTests
pub mod ServiceTests
pub mod SubscriptionTests
pub mod StringTests
pub mod NodeTests
