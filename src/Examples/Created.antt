-- ===== src/Examples/Created.antt =====
-- The theorems on the creation of the streams, with the event service that keeps them in a table.
use trademgen.Prelude.{List}
use trademgen.Prelude.Int.{pos}
use trademgen.DemandStruct.{DemandStruct}
use trademgen.Examples.Setting.{plain}
use trademgen.Examples.Parsing.{demand}

-- The demand travels on the last of three days.
abbrev three_days : DemandStruct ⦃p = plain⦄
three_days = record demand { date_range = record { begin = pos 5; end = pos 8 } }
