-- ===== src/Matching/Error.antt =====
-- The error codes of pspnet_adhoc_matching/library/globals.h that the calls return.
use aemu.Base.{ℕ}

abbrev pub invalid_mode : ℕ
invalid_mode = 0x80410801

abbrev pub invalid_maxnum : ℕ
invalid_maxnum = 0x80410803

abbrev pub rxbuf_too_short : ℕ
rxbuf_too_short = 0x80410804

abbrev pub invalid_optlen : ℕ
invalid_optlen = 0x80410805

abbrev pub invalid_arg : ℕ
invalid_arg = 0x80410806

abbrev pub invalid_id : ℕ
invalid_id = 0x80410807

abbrev pub no_space : ℕ
no_space = 0x80410809

abbrev pub is_running : ℕ
is_running = 0x8041080a

abbrev pub not_running : ℕ
not_running = 0x8041080b

abbrev pub unknown_target : ℕ
unknown_target = 0x8041080c

abbrev pub target_not_ready : ℕ
target_not_ready = 0x8041080d

abbrev pub exceed_maxnum : ℕ
exceed_maxnum = 0x8041080e

abbrev pub request_in_progress : ℕ
request_in_progress = 0x8041080f

abbrev pub already_established : ℕ
already_established = 0x80410810

abbrev pub already_initialized : ℕ
already_initialized = 0x80410812

abbrev pub not_initialized : ℕ
not_initialized = 0x80410813

abbrev pub port_in_use : ℕ
port_in_use = 0x80410814

abbrev pub invalid_datalen : ℕ
invalid_datalen = 0x80410816

abbrev pub not_established : ℕ
not_established = 0x80410817

abbrev pub data_busy : ℕ
data_busy = 0x80410818
