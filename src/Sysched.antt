-- ===== src/Sysched.antt =====
-- pkg/sysched: the plugin that scores nodes by the system calls of their pods.
pub mod Paths
pub mod Profiles
pub mod Hosts
