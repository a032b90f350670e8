-- ===== src/Rc.antt =====
-- Return codes of src/colinux/common/common_base.h: `co_rc_t` without the line and file numbers
-- that the macro CO_RC packs beside the code, and the packing itself.
use colinux_64bit.Base.{Bool, true, false}

-- `CO_ERRORS_X_MACRO`, with `CO_RC_OK`.
pub data Rc : Type 0 where
  ok : Rc
  error pae_enabled version_mismatched out_of_memory out_of_pages not_found : Rc
  cant_open_vmlinux_file cant_stat_vmlinux_file error_reading_vmlinux_file : Rc
  error_installing_driver error_removing_driver error_starting_driver error_stopping_driver : Rc
  error_accessing_driver transfer_off_bounds monitor_not_loaded broken_pipe timeout : Rc
  access_denied compiler_mismatched invalid_parameter hostmem_use_limit_reached : Rc
  instance_terminated : Rc

-- `CO_OK(rc)`: `rc >= 0`.
abbrev pub co_ok : Rc → Bool
co_ok ok = true
co_ok _ = false
