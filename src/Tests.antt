-- ===== src/Tests.antt =====
-- Runs of the models on concrete inputs, and the theorems applied there.
mod Machine
mod Vm
mod Sched
mod Fs
mod Unix
mod Ipc
mod Pmm
