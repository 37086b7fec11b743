-- ===== src/Discord.antt =====
-- internal/discord/discord.go: the notices of changes, and the commands of players.
pub mod Messages
pub mod Notifier
pub mod Bot
pub mod Backend
pub mod Gateway
