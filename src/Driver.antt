-- ===== src/Driver.antt =====
-- gserver/internal/gsi/driver.go: the driver's goroutine between the engine and the application.
pub mod Validators
pub mod Steps
pub mod Finalize
pub mod MainLoop
pub mod Initialize
