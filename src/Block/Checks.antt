-- ===== src/Block/Checks.antt =====
-- The theorem on block options at a concrete input.
use pulse_co_ap.Common.{◌≡◌, true, some, arith}
use pulse_co_ap.Types.OptionNumber
use pulse_co_ap.Message.Numbers.{uint_option}
use pulse_co_ap.Block.{from_option, to_option_value}
use pulse_co_ap.Block.Options.{from_option-to_option_value}

from_option-to_option_value_example :
    from_option (uint_option OptionNumber.block1 (to_option_value 300 true 4))
    ≡ some (record { num = 300; m = true; szx = 4 })
from_option-to_option_value_example =
    from_option-to_option_value OptionNumber.block1 300 true 4 (omega arith) (omega arith)
