-- ===== src/Examples/Controlling.antt =====
-- Tests of the control loop: a VM at rest whose guest asks for two blocks, and a latched one.
use virtio_mem_windows_servi.Prelude.{
  ℕ, ◌+◌, ◌-◌, ◌^◌, ◌%◌, ◌≤◌, ◌≡◌, ◌↔◌, refl, ap, false, Option, none, some, List, [], ◌∷◌, Result,
  ok, arith, Text, codes, replicate, All, byte_len, is_ok, max, text_eq, is_power_of_two,
}
use virtio_mem_windows_servi.Config.{HostConfig}
use virtio_mem_windows_servi.VirtioMem.{VirtioMemState, validate, device_maximum_target}
use virtio_mem_windows_servi.MemoryRequest
use virtio_mem_windows_servi.MemoryRequest.{
  HostMemoryStatus, validate_status, valid_identity, validate_at, is_foreign,
}
use virtio_mem_windows_servi.Journal.{new, admit, validate_journal}
use virtio_mem_windows_servi.Checkpoint.{is_latched, command_ownership}
use virtio_mem_windows_servi.Telemetry.{RawTelemetryEnvelope, high}
use virtio_mem_windows_servi.Checkpoint.{default_control}
use virtio_mem_windows_servi.Runtime.{
  Ready, ready, new_controller, DeviceCommand, request_resize, commanded, read_unix_clock,
  published, Environment, Session, Trace, save, instant_now, now, stop_requested,
}
use virtio_mem_windows_servi.Runtime.Grant.{growth_grant}
use virtio_mem_windows_servi.Runtime.Granted.{WithinCeiling, growth_grant-greatest}
use virtio_mem_windows_servi.Runtime.Extension.{
  extension_floor, extension_step, step_bytes, extension_target,
}
use virtio_mem_windows_servi.Runtime.Extended.{Lower, extension_target-Lower}
use virtio_mem_windows_servi.Runtime.Observe.{admitted, observe, live_state, outstanding}
use virtio_mem_windows_servi.Runtime.Act.{
  granted_target, act, act_valid, grant_for, act_granted, execute, resize_device, after_resize,
}
use virtio_mem_windows_servi.Pool.{sort_by_priority, range_from}
use virtio_mem_windows_servi.Runtime.Sweep.{Member, observe_all}
use virtio_mem_windows_servi.Runtime.Control.{
  resolve_intent, next_operation_id, admit_if_new, publish,
}
use virtio_mem_windows_servi.Runtime.Round.{
  Progress, act_member, action_order, ceiling_at, committed_growth, act_all, round, run,
}
use virtio_mem_windows_servi.Runtime.Rounds.{IsDisciplined}
use virtio_mem_windows_servi.Runtime.Runs.{run-IsDisciplined}
use virtio_mem_windows_servi.Runtime.HostShare.{total_growth, act_all_within_host}
use virtio_mem_windows_servi.Runtime.Discipline.{answered}
use virtio_mem_windows_servi.Runtime.Readiness.{Sized}
use virtio_mem_windows_servi.Runtime.Refusals.{long_latch_refusal}
use virtio_mem_windows_servi.Examples.{vm, service, session, growth, at_rest, idle_memory}
use virtio_mem_windows_servi.Examples.Durability.{host}

abbrev pub daemon : HostConfig
daemon = record host { raw_telemetry_service_name = codes "virtio-mem" }

abbrev publication : RawTelemetryEnvelope
publication = record {
  version = 5;
  vm_name = vm;
  service_name = service;
  session_id = session;
  observed_unix_millis = 3000;
  monotonic_millis = 7;
  sequence = 7;
  memory = idle_memory;
  native_pressure = some high;
  request = some growth;
  diagnostics = none;
}

-- Adapters that always answer the same, and carry every command out.
abbrev pub adapters : Environment
adapters = record {
  memory_state = λ _. ok at_rest;
  now_unix_millis = λ _. ok 3100;
  instant = λ _. 500;
  read = λ _. ok publication;
  available_bytes = λ _. ok (2 ^ 34);
  stop_requested = λ _. false;
  save = λ _ _. ok tt;
  request_resize_guarded = λ _ _ _ authorized. ok tt;
  retarget_pending_guarded = λ _ _ _. ok tt;
  widen_usable_region_guarded = λ _ _. ok tt;
  process_id = 42;
}

abbrev pub fresh : Session
fresh = record { vm = new_controller daemon default_control; trace = [] }

abbrev pub desktop : Member
desktop = record { env = adapters; session = fresh }

-- The commands of a history.
commands_of : Trace → List DeviceCommand
commands_of [] = []
commands_of (commanded c s ∷ t) = c ∷ commands_of t
commands_of (_ ∷ t) = commands_of t

commands : List Member → List (List DeviceCommand)
commands [] = []
commands (m ∷ ms) = commands_of m.session.trace ∷ commands ms

same_state : (a b : VirtioMemState) → ◌≡◌ {A = Result Text VirtioMemState} (ok a) (ok b) → a ≡ b
same_state a b h = cc

desktop-Sized : Sized adapters
desktop-Sized t state h =
    let same = same_state at_rest state h in
    let size : 1073741824 ≡ state.size_bytes = ap (λ d. d.size_bytes) same in omega (arith, size)

run-IsDisciplined_example : All IsDisciplined (run none ((false, false) ∷ []) (desktop ∷ [])).1
unfolding is_latched
run-IsDisciplined_example = run-IsDisciplined none ((false, false) ∷ []) (desktop ∷ []) (
  record {
    config = daemon;
    control = default_control;
    session = refl;
    answers = unfold answered in refl;
    sized = desktop-Sized;
  },
  tt,
)

growth_grant-greatest_example :
    (growth_grant daemon 8053063680 at_rest 4194304 (some 539000000) (2 ^ 34) 1000 % 2097152 ≡ 0)
    × ((2097152 ≤ growth_grant daemon 8053063680 at_rest 4194304 (some 539000000) (2 ^ 34) 1000) ↔ (
        (2097152 ≤ 4194304)
        × (8053063680 + 536870912 + 2097152 ≤ 2 ^ 34)
        × (536870912 + 2097152 ≤ device_maximum_target at_rest)
        × WithinCeiling (some 539000000) (536870912 + 2097152)
        × (1000 + 2097152 + (2 ^ 30) + 268435456 ≤ 2 ^ 34)))
growth_grant-greatest_example =
    growth_grant-greatest daemon 8053063680 at_rest 4194304 (some 539000000) (2 ^ 34) 1000 2097152
      (omega arith) (omega arith) (omega arith) refl

abbrev pub ready_growth : Ready
ready_growth = record { base_ram = 8053063680; state = at_rest; request = growth; admission = new }

abbrev start : Progress
start = record { members = desktop ∷ []; committed = 1000; last = none }

act_all_within_host_example :
    1000 + total_growth (act_all (0 ∷ []) (some (ready ready_growth) ∷ []) none start).1.members
    ≤ total_growth start.members + max 1000 ((2 ^ 34) - (2 ^ 30) - (2 ^ 28))
act_all_within_host_example =
    act_all_within_host (2 ^ 34) (2 ^ 30) (omega arith) (0 ∷ []) (some (ready ready_growth) ∷ [])
      none start (record { steady = λ _. refl; reserve = refl }, tt)

abbrev long_reason : Text
long_reason = replicate 1000 0x61

abbrev latched : Session
latched = record {
  vm = new_controller daemon (record default_control { latch_reason = some long_reason });
  trace = [];
}

abbrev refused : Session
refused = (admitted adapters ready_growth none 3100 (ok (default_control.journal, new)) latched).1

long_latch_refusal_example :
    (status : HostMemoryStatus) × (refused.trace ≡ published status ∷ read_unix_clock ∷ [])
    × (is_ok (validate_status status vm service) ≡ false)
long_latch_refusal_example =
    long_latch_refusal adapters ready_growth none 3100 3100 default_control.journal latched
      long_reason refl (unfold byte_len in omega arith) refl

abbrev one_round : List Member
one_round = (run none ((false, false) ∷ []) (desktop ∷ [])).1

-- The round gives exactly one command: the growth by the two blocks asked for.
round_commands : commands one_round ≡ (request_resize 541065216 ∷ []) ∷ []
unfolding commands commands_of run round observe_all stop_requested observe live_state validate
    is_power_of_two resolve_intent command_ownership now admit validate_journal
    MemoryRequest.validate valid_identity is_foreign text_eq validate_at is_latched act_all
    action_order sort_by_priority range_from act_member act act_valid grant_for act_granted
    growth_grant device_maximum_target ceiling_at committed_growth outstanding execute
    next_operation_id admit_if_new save resize_device after_resize publish instant_now
    granted_target
round_commands = refl

-- A shrink to 256 MiB that stands still.
abbrev shrinking : VirtioMemState
shrinking = record at_rest { requested_bytes = 268435456 }

shrinking-valid : validate shrinking ≡ ok tt
unfolding validate is_power_of_two
shrinking-valid = refl

abbrev extended_target : Option ℕ
extended_target =
    extension_target 268435456
      (step_bytes (extension_step none (codes "op-1") 536870912 2097152) 536870912 134217728
        2097152)
      (extension_floor daemon 8053063680 2097152)

extended : extended_target ≡ some 266338304
unfolding extension_target step_bytes extension_step extension_floor
extended = refl

extension_target-Lower_example : Lower daemon 8053063680 shrinking 134217728 266338304
extension_target-Lower_example =
    extension_target-Lower daemon 8053063680 shrinking none (codes "op-1") 134217728 266338304
      shrinking-valid (omega arith) extended
