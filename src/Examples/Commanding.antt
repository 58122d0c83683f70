-- ===== src/Examples/Commanding.antt =====
-- Tests of the resize sink: a domain whose virsh commands all succeed, and one whose widening fails.
use virtio_mem_windows_servi.Prelude.{
  ◌≡◌, ◌⊎◌, refl, false, [], ◌∷◌, Result, ok, err, Text, codes, if◌then◌else◌, ◌==◌,
  is_power_of_two,
}
use virtio_mem_windows_servi.VirtioMem.{validate, validate_target, device_maximum_target}
use virtio_mem_windows_servi.Units.{bytes_to_kibibytes}
use virtio_mem_windows_servi.Compatibility.{all_confirmed, merge, validate_for_resize}
use virtio_mem_windows_servi.ResizeSink.{
  VirshCall, suspend, resume, dumpxml, update_memory_device, Virsh, still_converged,
  request_resize_guarded, widen_usable_region_guarded, prepare_widening, prepare, read_compatible,
  read_snapshot, widen_prepared, widen_unless, widen_paused, apply_prepared, run_command,
  restore_again, after_restore, resumed,
}
use virtio_mem_windows_servi.ResizeSink.Requests.{issued}
use virtio_mem_windows_servi.ResizeSink.Guarded.{UnlessRejected, Resized, request_resize_outcome}
use virtio_mem_windows_servi.ResizeSink.Widening.{WidenEnds, widen_outcome}
use virtio_mem_windows_servi.Examples.{at_rest}

-- Every command succeeds, except an update to the size of the whole device.
answer : VirshCall → Result Text (Unit {0})
answer dumpxml = ok tt
answer suspend = ok tt
answer resume = ok tt
answer (update_memory_device kib) = if kib == 1048576 then err (codes "busy") else ok tt

abbrev virsh : Virsh
virsh = record {
  compatibility = λ _. ok all_confirmed;
  dumpxml = λ _. ok (record { memory = at_rest; compatibility = all_confirmed });
  run = λ _ call. answer call;
  stop_requested = λ _. false;
}

request_resize_outcome_example :
    UnlessRejected virsh at_rest 541065216 []
      (Resized virsh at_rest 541065216 [])
      (request_resize_guarded virsh at_rest 541065216 (ok tt) [])
    × ((◌≡◌ {A = Result Text (Unit {0})} (ok tt) (ok tt))
        ⊎ (issued (request_resize_guarded virsh at_rest 541065216 (ok tt) []).1 ≡ issued []))
request_resize_outcome_example = request_resize_outcome virsh at_rest 541065216 [] (ok tt)

widen_outcome_example :
    WidenEnds at_rest.requested_bytes virsh [] (widen_usable_region_guarded virsh at_rest [])
widen_outcome_example = widen_outcome virsh at_rest

-- The domain is paused, the widening fails, the size is restored, and the domain resumed.
widen_calls :
    issued (widen_usable_region_guarded virsh at_rest []).1
    ≡ resume ∷ update_memory_device 524288 ∷ update_memory_device 1048576 ∷ suspend ∷ []
unfolding issued answer widen_usable_region_guarded prepare_widening prepare validate
    device_maximum_target is_power_of_two read_compatible read_snapshot merge validate_for_resize
    validate_target still_converged bytes_to_kibibytes widen_prepared widen_unless widen_paused
    apply_prepared run_command restore_again after_restore resumed
widen_calls = refl
