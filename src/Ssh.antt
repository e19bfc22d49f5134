-- ===== src/Ssh.antt =====
-- crates/shbox/src/ssh: the SSH side of the daemon.
pub mod Channel
