-- ===== src/Examples.antt =====
-- Runs at concrete inputs.
mod Samples
mod Runs
mod Parts
mod Cipher
mod Kiosk
mod Pages
mod Starts
