-- ===== src/Parser/Generation.antt =====
-- From a parsed demand to the generation of its requests: the semantic actions of
-- trademgen/command/DemandParserHelper.cpp, and the Poisson process of
-- trademgen/bom/DemandStream.cpp on a stream that is made from the demand.
use Prim.Native.String.{String}
use trademgen.Platform.{Platform}
use trademgen.Attribute.Continuous
use trademgen.Attribute.Continuous.{real_scalar}
use trademgen.Attribute.Continuous.Ascending.{Ascending}
use trademgen.DemandStruct.{DemandStruct}
