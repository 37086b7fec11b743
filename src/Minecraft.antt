-- ===== src/Minecraft.antt =====
-- internal/minecraft/java.go: the STATUS ping of the Java Edition.
pub mod Codec
pub mod Ping
