-- ===== src/Multipart.antt =====
-- src/job/multipart.cxx: the file of headed sections.
pub mod Section
pub mod Scan
pub mod Scanning
pub mod Entry
pub mod Load
pub mod Print
pub mod Lines
pub mod Order
pub mod Reading
pub mod Bound
pub mod Bare
pub mod Parts
pub mod Headers
pub mod Bodies
pub mod RoundTrip
