-- ===== src/Types/OptionNumber.antt =====
-- `enum class OptionNumber` of src/PulseCoAPTypes.h, and the two values of the Observe option.
use pulse_co_ap.Common.{ℕ}

abbrev pub observe : ℕ
observe = 6

abbrev pub uri_path : ℕ
uri_path = 11

abbrev pub content_format : ℕ
content_format = 12

abbrev pub block2 : ℕ
block2 = 23

abbrev pub block1 : ℕ
block1 = 27

abbrev pub observe_register : ℕ
observe_register = 0

abbrev pub observe_deregister : ℕ
observe_deregister = 1

abbrev pub if_match : ℕ
if_match = 1

abbrev pub uri_host : ℕ
uri_host = 3

abbrev pub etag : ℕ
etag = 4

abbrev pub if_none_match : ℕ
if_none_match = 5

abbrev pub uri_port : ℕ
uri_port = 7

abbrev pub location_path : ℕ
location_path = 8

abbrev pub max_age : ℕ
max_age = 14

abbrev pub uri_query : ℕ
uri_query = 15

abbrev pub accept : ℕ
accept = 17

abbrev pub location_query : ℕ
location_query = 20

abbrev pub size2 : ℕ
size2 = 28

abbrev pub proxy_uri : ℕ
proxy_uri = 35

abbrev pub proxy_scheme : ℕ
proxy_scheme = 39

abbrev pub size1 : ℕ
size1 = 60
