-- ===== src/Messages.antt =====
-- The texts of the errors that the host puts into latches and results: crates/virtio-mem-core/src, error.rs
-- and memory_request.rs.
use virtio_mem_windows_servi.Prelude.{◌++◌, Text, codes, decimal}
use virtio_mem_windows_servi.VirtioMem.{
  VirtioMemError, ValueName, requested, current, target, zero_size, block_size_too_small,
  block_size_not_power_of_two, size_not_aligned, value_outside_size, value_not_aligned,
}
use virtio_mem_windows_servi.MemoryRequest.{
  RequestError, unsupported_version, invalid_identity, invalid_interval, foreign_request,
  expired_or_future, result_mismatch, invalid_observation, invalid_reason, contradicting_outcome,
  foreign_status, unobserved_status, contradicting_result, device, result_without_admission,
  foreign_journal, identity_reused, earlier_unresolved, predates_watermark, nothing_admitted,
  terminal_replaced, observation_backwards,
}

-- The `name` of a state value.
unfoldable pub value_name : ValueName → Text
value_name requested = codes "requested"
value_name current = codes "current"
value_name target = codes "target"

-- `Display` of `VirtioMemError`.
unfoldable pub device_message : VirtioMemError → Text
unfolding value_name
device_message zero_size = codes "virtio-mem device size must be greater than zero"
device_message (block_size_too_small actual minimum) =
    codes "virtio-mem block size "
    ++ (decimal actual
        ++ (codes " is smaller than the minimum " ++ (decimal minimum ++ codes " bytes")))
device_message (block_size_not_power_of_two value) =
    codes "virtio-mem block size must be a power of two: " ++ (decimal value ++ codes " bytes")
device_message (size_not_aligned size block) =
    codes "virtio-mem device size "
    ++ (decimal size ++ (codes " is not a multiple of block size " ++ decimal block))
device_message (value_outside_size name value size) =
    codes "virtio-mem "
    ++ (value_name name
        ++ (codes " value "
            ++ (decimal value ++ (codes " is outside device size " ++ decimal size))))
device_message (value_not_aligned name value block) =
    codes "virtio-mem "
    ++ (value_name name
        ++ (codes " value "
            ++ (decimal value ++ (codes " is not aligned to block size " ++ decimal block))))

-- The `Err` strings of memory_request.rs.
unfoldable pub request_message : RequestError → Text
unfolding device_message
request_message unsupported_version = codes "unsupported memory request version"
request_message invalid_identity = codes "invalid memory request identity"
request_message invalid_interval =
    codes "memory request needs a positive delta and a bounded validity interval"
request_message foreign_request = codes "foreign memory request"
request_message expired_or_future = codes "memory request is expired or from the future"
request_message result_mismatch = codes "memory result does not match the retained request"
request_message invalid_observation = codes "memory result has invalid observation/actual bytes"
request_message invalid_reason = codes "invalid memory result reason"
request_message contradicting_outcome = codes "memory result outcome contradicts actual bytes"
request_message foreign_status = codes "foreign or unsupported host memory status"
request_message unobserved_status = codes "host memory status has no observation time"
request_message contradicting_result = codes "host memory result identity/time contradicts status"
request_message (device error) = device_message error
request_message result_without_admission = codes "request journal has a result without an admission"
request_message foreign_journal = codes "foreign request journal"
request_message identity_reused = codes "request identity was reused with different content"
request_message earlier_unresolved =
    codes "an earlier request is unresolved, including across producer sessions"
request_message predates_watermark = codes "memory request predates the retained replay watermark"
request_message nothing_admitted = codes "memory result has no admitted request"
request_message terminal_replaced = codes "terminal memory result cannot be replaced"
request_message observation_backwards = codes "memory result observation moved backwards"
