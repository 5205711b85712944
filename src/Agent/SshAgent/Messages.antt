-- ===== src/Agent/SshAgent/Messages.antt =====
-- phone-auth-agent/src/ssh_agent.rs: the messages that an agent understands.
