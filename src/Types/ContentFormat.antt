-- ===== src/Types/ContentFormat.antt =====
-- `enum class ContentFormat` of src/PulseCoAPTypes.h.
use pulse_co_ap.Common.{ℕ}

abbrev pub text_plain : ℕ
text_plain = 0

abbrev pub link_format : ℕ
link_format = 40

abbrev pub xml : ℕ
xml = 41

abbrev pub octet_stream : ℕ
octet_stream = 42

abbrev pub exi : ℕ
exi = 47

abbrev pub json : ℕ
json = 50

abbrev pub cbor : ℕ
cbor = 60
