-- ===== src/Lib.antt =====
-- Verification library of virtio-mem for Windows: a guest service that measures memory and asks for
-- changes of its virtio-mem device, and a host daemon that shares a pool between VMs, admits each
-- request once and drives the device.
--
-- The guest samples its counters, estimates a target (target_controller.rs), plans one delta at a time
-- and keeps it as a durable pending request until the host answers it (guest_policy.rs). It publishes
-- request and telemetry in an envelope (demand.rs). The host validates the envelope, admits the request
-- into its journal (memory_request.rs), bounds growth by the pool (pool.rs), and keeps journal, command
-- intent and latch in a checkpoint file (host/src/checkpoint.rs), from which status and clear-latch work.
-- Its loop (host/src/runtime.rs) observes every VM, allocates the pool, and then lets each VM act, which
-- grants a request, makes it durable and has the resize sink (host/src/resize_sink.rs) run virsh.
--
-- Files, and the code they are about (paths under crates/virtio-mem-core/src unless they say host/):
--   Units, VirtioMem      units.rs (conversions; parse_byte_size in Units/Sizes, and what it accepts
--                         in the modules beside it); virtio_mem.rs and error.rs: VirtioMemState.
--   Compatibility         compatibility.rs: evidence, its merge, and the check before a resize.
--   Pool                  pool.rs: allocate_pool. The loop over the sorted indices is `serve`, the stable
--                         sort `sort_by_priority`, the overflow check of the charges `charged_from`.
--   MemoryRequest         memory_request.rs, the wire types and their validation.
--   Journal               memory_request.rs: bounded_reason and MemoryRequestJournal. `admit` and
--                         `record_result` return the journal after the call; Journal/History runs calls
--                         and lists the requests that `admit` takes as new. A replay is not one of them:
--                         the control loop also acts on a replayed request that has no result yet.
--   Diagnostics           guest_policy.rs and demand.rs, the diagnostic records.
--   Telemetry             demand.rs: MemoryTelemetrySnapshot and RawTelemetryEnvelope.
--   Target                target_controller.rs: validation, calculate_instantaneous; Target/History the
--                         candidate history; Target/Estimator the state and `estimate`, in the order of the
--                         source: prepare_sample, apply_limits, raise, remember, conclude;
--                         Target/Sessions the estimators that a session of calls reaches.
--   GuestPolicy           guest_policy.rs: plan_request; GuestPolicy/Requester the requester and the start
--                         of a poll (begin_poll, poll_estimate), GuestPolicy/Poll its end (poll_pending or
--                         poll_idle) and `poll`.
--   Status                controller_status.rs: the status contract and its validation.
--   Checkpoint            host/src/checkpoint.rs: control state, command_ownership, movement_result;
--                         Checkpoint/Operations load, open_with, save and clear_actuation_latch;
--                         Checkpoint/Report read_controller_status.
--   Config, HostMemory    host/src/config.rs, the fields that are read; host/src/host_memory.rs: the check of
--                         the available memory before a growth.
--   Messages              error.rs and memory_request.rs: the texts of errors that enter latches and results.
--   Runtime               host/src/runtime.rs: VmController, the adapters, effects and actions. Its children
--                         hold the methods: Control (publish, latch, resolve_intent), Deadlines
--                         (command_stalled, pending_elapsed), Pending (observe_pending,
--                         widen_usable_region), Extension and Extend (extend_shrink), Settle (settle_short),
--                         Grant and Act (act), Observe (observe, pool_member), Sweep and Round (round,
--                         allocate, run). Discipline says which commands a history may hold; Holds and
--                         Latching to Runs are the proofs about it, Granted, Extended, Growth, Budget,
--                         HostShare, PoolShare and Refusals those of the other theorems.
--   ResizeSink            host/src/resize_sink.rs: prepare and the three guarded operations.
--   Prelude               native numbers, lists, results, `u64` operations and the methods of `str`.
--   Examples              tests on concrete data.
--
-- Conventions. A method with `&mut self` is a function that returns the state after the call beside its
-- result, so that a failing call's changes are seen. A message of a string error is a constructor of the
-- file's error type. `u64` values are natural numbers; checked and saturating operations compare with
-- 2^64, and subtraction that the source saturates is the subtraction that stops at 0. Text is the list of
-- its code points, and `len` counts UTF-8 bytes.
--
-- The control loop is written in a state monad with errors, `Action`: a session is the controller and the
-- history of the effects that it has had, which a failing call keeps. What an adapter answers is a
-- function of that history, so no two reads are assumed to agree; a run has one pair of stop flags per
-- round, and every stop flag read inside comes from the adapters. An instant is a number of milliseconds.
-- In the resize sink, virsh answers in the same way out of the calls so far.
--
-- Bounds. Every loop of the source is structural recursion on a list; only the digits of a printed number
-- are counted down from 20, which is enough for a `u64`. `run` is about as many rounds as it has inputs.
-- The limits are the source's constants: 4096 history entries, 1024 bytes of reason, 1 MiB of checkpoint,
-- 256 MiB for a widened shrink and for the margin of a growth.
--
-- Parameters. serde_json's encoding of a checkpoint file is `encode` and `decode`; where a theorem needs
-- it, decoding what was encoded gives the file back. The file on disk is the bytes it holds, `Writing`
-- says how far a write came: the file system is taken to rename a file as a whole, so that a write
-- leaves the old bytes or the new ones. The lock of host/src/ownership.rs is whether it was acquired. The
-- adapters of the control loop are the record `Environment`, virsh and the evidence source of the resize
-- sink the record `Virsh`; `Sized` says that the device's size is a `u64`.
--
-- Not modelled: log lines and the flags that keep one from being repeated, the optional copy of the
-- telemetry, and the waiting between two rounds; the adapters to libvirt, virsh, the guest agent and
-- files; attestation; settings and XML parsing; the Windows service around the requester (windows/src);
-- the tools, patches and deployment files. They are I/O and glue around the parts above.
mod Prelude
pub mod Units
pub mod VirtioMem
pub mod Compatibility
pub mod Config
pub mod HostMemory
pub mod Pool
pub mod MemoryRequest
pub mod Journal
pub mod Diagnostics
pub mod Telemetry
pub mod Target
pub mod GuestPolicy
pub mod Status
pub mod Checkpoint
pub mod Messages
pub mod Runtime
pub mod ResizeSink
mod Examples
