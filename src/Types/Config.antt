-- ===== src/Types/Config.antt =====
-- The default limits and times of src/PulseCoAPConfig.h. Times are in milliseconds.
use pulse_co_ap.Common.{ℕ}

abbrev pub max_msg_size : ℕ
max_msg_size = 256

abbrev pub max_options : ℕ
max_options = 16

abbrev pub max_token_len : ℕ
max_token_len = 8

abbrev pub max_transactions : ℕ
max_transactions = 4

abbrev pub ack_timeout_ms : ℕ
ack_timeout_ms = 2000

abbrev pub ack_random_factor_num : ℕ
ack_random_factor_num = 3

abbrev pub ack_random_factor_den : ℕ
ack_random_factor_den = 2

abbrev pub max_retransmit : ℕ
max_retransmit = 4

abbrev pub max_resources : ℕ
max_resources = 8

abbrev pub max_observers : ℕ
max_observers = 8

abbrev pub max_uri_path_len : ℕ
max_uri_path_len = 64

abbrev pub max_deferred : ℕ
max_deferred = 2

abbrev pub max_link_format_len : ℕ
max_link_format_len = 256

abbrev pub block_szx : ℕ
block_szx = 4

abbrev pub max_block1_sessions : ℕ
max_block1_sessions = 2

abbrev pub block1_max_body : ℕ
block1_max_body = 1024

abbrev pub block2_max_body : ℕ
block2_max_body = 1024

abbrev pub max_path_params : ℕ
max_path_params = 4

abbrev pub max_path_param_len : ℕ
max_path_param_len = 16

abbrev pub max_discovers : ℕ
max_discovers = 2

abbrev pub discover_timeout_ms : ℕ
discover_timeout_ms = 5000
