-- ===== src/Types/Code.antt =====
-- `enum class Code` of src/PulseCoAPTypes.h.
use pulse_co_ap.Common.{ℕ}
use pulse_co_ap.Types.Codes.{make_code}

abbrev pub empty : ℕ
empty = make_code 0 0

abbrev pub get : ℕ
get = make_code 0 1

abbrev pub post : ℕ
post = make_code 0 2

abbrev pub put : ℕ
put = make_code 0 3

abbrev pub delete : ℕ
delete = make_code 0 4

abbrev pub created : ℕ
created = make_code 2 1

abbrev pub deleted : ℕ
deleted = make_code 2 2

abbrev pub valid : ℕ
valid = make_code 2 3

abbrev pub changed : ℕ
changed = make_code 2 4

abbrev pub content : ℕ
content = make_code 2 5

abbrev pub continue : ℕ
continue = make_code 2 31

abbrev pub bad_request : ℕ
bad_request = make_code 4 0

abbrev pub unauthorized : ℕ
unauthorized = make_code 4 1

abbrev pub bad_option : ℕ
bad_option = make_code 4 2

abbrev pub forbidden : ℕ
forbidden = make_code 4 3

abbrev pub not_found : ℕ
not_found = make_code 4 4

abbrev pub method_not_allowed : ℕ
method_not_allowed = make_code 4 5

abbrev pub not_acceptable : ℕ
not_acceptable = make_code 4 6

abbrev pub request_entity_incomplete : ℕ
request_entity_incomplete = make_code 4 8

abbrev pub precondition_failed : ℕ
precondition_failed = make_code 4 12

abbrev pub request_entity_too_large : ℕ
request_entity_too_large = make_code 4 13

abbrev pub unsupported_content_format : ℕ
unsupported_content_format = make_code 4 15

abbrev pub internal_server_error : ℕ
internal_server_error = make_code 5 0

abbrev pub not_implemented : ℕ
not_implemented = make_code 5 1

abbrev pub service_unavailable : ℕ
service_unavailable = make_code 5 3

abbrev pub fetch : ℕ
fetch = make_code 0 5

abbrev pub patch : ℕ
patch = make_code 0 6

abbrev pub i_patch : ℕ
i_patch = make_code 0 7

abbrev pub bad_gateway : ℕ
bad_gateway = make_code 5 2

abbrev pub gateway_timeout : ℕ
gateway_timeout = make_code 5 4

abbrev pub proxying_not_supported : ℕ
proxying_not_supported = make_code 5 5
