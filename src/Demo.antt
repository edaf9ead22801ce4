-- ===== src/Demo.antt =====
-- platform_standalone/demo_app_src/main.c: the console application that reads and writes
-- quadlets and blocks.
pub mod Numbers
pub mod Input
pub mod Commands
mod Examples
