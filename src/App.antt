-- ===== src/App.antt =====
-- internal/app: what the program does with a job, from its submission to the sweep that resolves what
-- was left behind. Each part takes the interfaces that the Go code declares, over any state `S`.
pub mod Deliver
pub mod Submit
pub mod Postgres
pub mod Sweep
pub mod Provision
pub mod Sound
