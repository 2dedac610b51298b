-- ===== src/Tests.antt =====
-- Runs of the models on concrete inputs, and the theorems at inputs that meet their conditions.
mod Engine
mod Gui
mod SoundConv
mod Files
mod Messages
mod Startup
mod Audio
mod Media
mod Filter
mod Phone
