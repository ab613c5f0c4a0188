-- ===== src/Service/Displays.antt =====
-- The operations of the service that write texts or answer what other components know
-- (trademgen/service/TRADEMGEN_Service.cpp). Each one fails where the pointer to the context is null.
use Prim.Native.String.{String}
use trademgen.Prelude.{not_initialised, Bool, Option, Result, ok, ◌>>=◌, or_fault}
use trademgen.Platform.{Platform}
use trademgen.Events.{EventService, EventType}
use trademgen.Stream.Request.{BookingRequest}
use trademgen.Display.{Printer}
use trademgen.Display.Csv
use trademgen.Service.Building.{ServiceContext}

module _ ⦃p : Platform⦄ (w : EventService) where
  open w use {World, list_events, json_handler}

  -- The service, once it is initialised.
  abbrev initialised : Option (ServiceContext w) → Result (ServiceContext w)
  initialised s = or_fault not_initialised s

  unfoldable pub csv_display : Printer → Option (ServiceContext w) → Result String
  unfolding Csv.csv_display
  csv_display out s = do t ← initialised s; Csv.csv_display out w t.context.world

  unfoldable pub list : Option (ServiceContext w) → Result String
  list s = do t ← initialised s; ok (list_events t.context.world)

  -- `list` of the events of one type; SEvMgr's text is an argument.
  unfoldable pub list_of :
      (EventType → World → String) → EventType → Option (ServiceContext w) → Result String
  list_of listed e s = do t ← initialised s; ok (listed e t.context.world)

  unfoldable pub handle_json : String → Option (ServiceContext w) → Result String
  handle_json command s = do t ← initialised s; ok (json_handler command t.context.world)

  -- StdAir's sample request is an argument.
  unfoldable pub build_sample_booking_request :
      (Bool → World → BookingRequest) → Bool → Option (ServiceContext w) → Result BookingRequest
  build_sample_booking_request sample is_for_crs s = do
    t ← initialised s
    ok (sample is_for_crs t.context.world)
