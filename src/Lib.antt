-- ===== src/Lib.antt =====
-- TraDemGen generates the demand of airline passengers: for each origin, destination, departure
-- date and cabin a demand stream draws booking requests, with their date-times and attributes, and
-- the requests become events of a queue. This library models that core.
--
-- The parts and their files, with the source of each under the repository's root:
--   Prelude     the names that all files share, faults and results, integers
--   Platform    what other libraries give: doubles, random generators, dates and times
--   Attribute   trademgen/basic/CategoricalAttributeLite.hpp (Categorical),
--               ContinuousAttributeLite.hpp (Continuous) and DictionaryManager.cpp (Dictionary):
--               distributions kept in two arrays; Scan is the search loop that their functions share.
--               Multimap and Exact are the older templates, trademgen/basic/ContinuousAttribute.hpp
--               and CategoricalAttribute.hpp
--   Demand      trademgen/basic/BasConst.cpp, DemandCharacteristics, DemandDistribution,
--               RandomGenerationContext, and trademgen/bom/DemandStreamKey
--   Stream      trademgen/bom/DemandStream: its state; setAll is set_all, init, reset and
--               stillHavingRequestsToBeGenerated are init, reset and still_having. Stream/Timing has
--               generateTimeOfRequestPoissonProcess (poisson_process) and
--               generateTimeOfRequestStatisticsOrder (statistics_order), Stream/Choice the functions
--               generatePOS to generateValueOfTime, Stream/Request generateNextRequest;
--               Stream/Order and Stream/Duration are about the order of the requests in time
--   DemandStruct  trademgen/bom/DemandStruct: a demand as it is read from the input
--   Parser      trademgen/command/DemandParserHelper.cpp: the semantic actions of the demand parser;
--               Parser/Maps has the insertion into a `std::map`; Parser/Line the rules of the
--               grammar, as the actions that a line calls (line_actions), and the driver, with
--               DemandParser::generateDemand (parse_demand_file); Parser/Meaning says what a demand of
--               the file means for the staging structure, Parser/Created which streams the file leaves
--   Events      the event service (SEvMgr, StdAir), a record of operations and its laws
--   Manager     trademgen/command/DemandManager.cpp: the first and the next requests and the
--               reset; Manager/Creation has the creation of the streams (Manager/Created what
--               it leaves), Manager/Cancellations
--               generateCancellation, Manager/Sample buildSampleBomStd and buildSampleBom (the
--               distributions in Manager/SampleData)
--   Service     trademgen/service/TRADEMGEN_Service.cpp: the operations that users call;
--               Service/Building has the constructors, parseAndLoad and buildSampleBom, Service/Displays
--               the texts that it hands out
--   Batch       trademgen/batches/trademgen_generateDemand.cpp: generateDemand, with the loop over the
--               events (process_events), a run and the runs; Batch/Sanity has its check that the next
--               request is not before the popped one, Batch/Sequence the requests that it asks of one
--               stream in turn, Batch/Runs is about the rounds of its loops,
--               Batch/Endless about the last number of runs
--   Session     trademgen/ui/cmdline/trademgen.cpp: the words (extract_command, to_string), what each
--               command does and prints (execute) and the loop over the lines (interact);
--               Session/Help is about the words in the help
--   Binding     trademgen/python/pytrademgen.cpp: init and trademgen (generate_runs) of the object that
--               Python sees, with the exceptions that they catch
--   Display     the texts that describe and display of the attributes, the demand and the streams write
--               (Display/Csv has trademgen/bom/BomDisplay.cpp, Display/Struct the description in
--               trademgen/bom/DemandStruct.cpp)
--   Program     readConfiguration of the three programs (trademgen/batches/trademgen_generateDemand.cpp,
--               trademgen/ui/cmdline/trademgen.cpp and trademgen/batches/trademgen_with_db.cpp);
--               Program/Options reads those of the first two and Program/Main has their main functions,
--               Program/Database has the third program, and Program/Words createStringFromWordList
--   Database    trademgen/command/DBManager.cpp, and displayAirlineListFromDB of
--               trademgen/service/TRADEMGEN_Service.cpp, on SOCI as a record of operations;
--               Database/Params has trademgen/DBParams.hpp
--   Examples    a platform, streams and an event service on which the theorems are applied
--
-- The service calls the demand manager with its context's event service and generator; the manager
-- finds a stream in the event service, has it generate a request, stores the stream and queues the
-- event; the stream draws from its own generators and asks the attributes of its demand. The batch and
-- the command line are clients of the service: they pop events, and generate requests by the key of
-- a stream. The programs read their options, make a service, fill it, and run the batch, the
-- session or the list of the airlines on it.
--
-- State is passed explicitly. A C++ exception, a failed assertion or an object that is not found is
-- an error value of Result. The loops over arrays, lists and date ranges recur on the list or on the
-- number of elements left. The recursion of the Poisson process takes fuel, and a number above the
-- number of the pattern's points that lie after the last request is enough. The
-- loops of the batch over the events and of generate_all_br take fuel as well, their rounds; under the
-- statistics order the events in the queue and the requests left of the streams are enough. The
-- total number of requests is an integer, since every value stored there has been through `floor`.
-- Counters are the native numbers; their overflow needs more requests than a machine holds. The index
-- of the runs of the batch wraps round at 2 ^ 32, as does that of a token in toString at 2 ^ 16. The
-- loop over the runs takes as many turns as the others take rounds, and below 2 ^ 32 - 1 runs their
-- number is enough.
--
-- Doubles are an abstract type with the operations that the code applies; theorems that need an
-- order, or monotone rounding, take it as a named hypothesis. What StdAir, Boost and SEvMgr do is a
-- parameter as well.
--
-- Not modelled: how Boost Spirit matches the characters of a demand file with the rules of the grammar
-- (a file is given as its demands and what the rules did of the text after them), how
-- Boost.Program_options reads a command line (an option is given or not), logging, the log and output
-- files, and what the service holds after an exception that the Python binding caught.
pub mod Prelude
pub mod Platform
pub mod Attribute
pub mod Demand
pub mod Stream
pub mod Events
pub mod DemandStruct
pub mod Manager
pub mod Parser
pub mod Service
pub mod Batch
pub mod Session
pub mod Binding
pub mod Display
pub mod Program
pub mod Database
mod Examples
