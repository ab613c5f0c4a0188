-- ===== src/Events.antt =====
-- The event service that holds the demand streams and the event queue (`SEVMGR::SEVMGR_Service` and
-- StdAir's BOM tree). It is another library's, and a parameter here: a state, its operations, and
-- the laws that a theorem may ask for. The template methods that
-- trademgen/service/TRADEMGEN_Service.cpp adds to it only pass their arguments to StdAir's
-- `FacBomManager` and `BomManager`; they are the operations on the streams.
use Prim.Native.String.{String}
use trademgen.Prelude.{ℕ, suc, ◌≡◌, ◌⊎◌, Bool, false, Option, some, List, [], ◌∷◌, ◌++◌, map, ◌==◌}
use trademgen.Prelude.Int.{ℤ}
use trademgen.Platform.{Platform}
use trademgen.Stream.{DemandStream}
use trademgen.Stream.Request.{BookingRequest}

-- `stdair::EventType::EN_EventType`, the two values that the code uses.
pub data EventType : Type 0 where
  bkg_req : EventType
  cx : EventType

module _ ⦃p : Platform⦄ where
  open p use {Real, DateTime, SegmentPath, BookingClassId}

  -- `stdair::CancellationStruct`.
  pub record Cancellation : Type 0 where
    pub segment_path : SegmentPath
    pub class_id_list : List BookingClassId
    pub party_size : ℤ
    pub cancellation_date_time : DateTime

  -- `stdair::EventStruct`.
  pub data Event : Type 0 where
    booking : BookingRequest → Event
    cancellation : Cancellation → Event

  pub record EventService : Type 1 where
    -- The state of the service, and a `DemandStream*`.
    pub World : Type 0
    pub Pointer : Type 0
    -- What a new `DemandStream` holds where its constructor sets nothing.
    pub fresh : World → DemandStream
    -- `addEventGenerator`, with the object that was created before.
    pub add_event_generator : DemandStream → World → World
    -- `BomManager::getObjectPtr`.
    pub find : String → World → Option Pointer
    -- `getEventGeneratorList`.
    pub list : World → List Pointer
    -- `hasEventGeneratorList`, and `describeKey` of the queue.
    pub has_list : World → Bool
    pub describe_key : World → String
    pub load : Pointer → World → DemandStream
    pub store : Pointer → DemandStream → World → World
    pub add_event : Event → World → World
    -- The number may be a `double`.
    pub add_status : EventType → Real → World → World
    pub update_status : EventType → ℤ → World → World
    pub has_progress_status : EventType → World → Bool
    pub actual_total : EventType → World → ℤ
    pub expected_total : EventType → World → ℤ
    pub is_queue_done : World → Bool
    -- The next event, and the queue without it. The set of progress statuses that `popEvent`
    -- answers as well is only logged.
    pub pop_event : World → Event × World
    -- `list` of the service, its `jsonHandler` and `describe` of an event.
    pub list_events : World → String
    pub json_handler : String → World → String
    pub describe_event : Event → String
    pub reset : World → World

  -- An object that is written is read again; no other object changes.
  pub record IsMemory (w : EventService) : Type 0 where
    pub load-store_same :
        (q : w.Pointer) (s : DemandStream) (x : w.World) → w.load q (w.store q s x) ≡ s
    pub load_store :
        (q r : w.Pointer) (s : DemandStream) (x : w.World)
        → ((q ≡ r) × (w.load q (w.store r s x) ≡ s)) ⊎ (w.load q (w.store r s x) ≡ w.load q x)
    pub load-add_event :
        (q : w.Pointer) (e : Event) (x : w.World) → w.load q (w.add_event e x) ≡ w.load q x
    pub load-update_status :
        (q : w.Pointer) (e : EventType) (n : ℤ) (x : w.World)
        → w.load q (w.update_status e n x) ≡ w.load q x

  -- The progress status of an event type holds what it was last set to.
  pub record HasStatus (w : EventService) : Type 0 where
    pub actual-update :
        (e : EventType) (n : ℤ) (x : w.World) → w.actual_total e (w.update_status e n x) ≡ n
    pub actual-store :
        (e : EventType) (r : w.Pointer) (s : DemandStream) (x : w.World)
        → w.actual_total e (w.store r s x) ≡ w.actual_total e x

  -- Where a pointer stands in a list.
  abbrev pub IsAmong : {A : Type 0} → A → List A → Type 0
  IsAmong q [] = ⊥
  IsAmong q (r ∷ rs) = (q ≡ r) ⊎ IsAmong q rs

  -- The streams stay where they are when a stream is written or the queue or a status changes.
  pub record KeepsStreams (w : EventService) : Type 0 where
    pub find-store :
        (key : String) (q : w.Pointer) (s : DemandStream) (x : w.World)
        → w.find key (w.store q s x) ≡ w.find key x
    pub find-add_event :
        (key : String) (e : Event) (x : w.World) → w.find key (w.add_event e x) ≡ w.find key x
    pub find-update_status :
        (key : String) (e : EventType) (n : ℤ) (x : w.World)
        → w.find key (w.update_status e n x) ≡ w.find key x
    pub list-store :
        (q : w.Pointer) (s : DemandStream) (x : w.World) → w.list (w.store q s x) ≡ w.list x
    pub list-add_event : (e : Event) (x : w.World) → w.list (w.add_event e x) ≡ w.list x
    pub list-update_status :
        (e : EventType) (n : ℤ) (x : w.World) → w.list (w.update_status e n x) ≡ w.list x
    pub find-list :
        (key : String) (q : w.Pointer) (x : w.World) → w.find key x ≡ some q → IsAmong q (w.list x)

  -- The streams that the service holds, in the order of its list.
  unfoldable pub contents : (w : EventService) → w.World → List DemandStream
  contents w x = map (λ q. w.load q x) (w.list x)

  -- A stream that is added stands behind the others; a status holds no stream.
  pub record AppendsStreams (w : EventService) : Type 0 where
    pub contents-add_event_generator :
        (s : DemandStream) (x : w.World)
        → contents w (w.add_event_generator s x) ≡ contents w x ++ (s ∷ [])
    pub contents-add_status :
        (e : EventType) (n : Real) (x : w.World) → contents w (w.add_status e n x) ≡ contents w x

  -- The queue has a number of events, which an added event raises by one and a popped one lowers.
  pub record IsQueue (w : EventService) : Type 0 where
    pub size : w.World → ℕ
    pub done-size : (x : w.World) → w.is_queue_done x ≡ (size x == 0)
    pub size-pop : (x : w.World) → w.is_queue_done x ≡ false → size x ≡ suc (size (w.pop_event x).1)
    pub size-add_event : (e : Event) (x : w.World) → size (w.add_event e x) ≡ suc (size x)
    pub size-store :
        (q : w.Pointer) (s : DemandStream) (x : w.World) → size (w.store q s x) ≡ size x
    pub size-update_status :
        (e : EventType) (n : ℤ) (x : w.World) → size (w.update_status e n x) ≡ size x
    pub list-pop : (x : w.World) → w.list (w.pop_event x).1 ≡ w.list x
    pub load-pop : (q : w.Pointer) (x : w.World) → w.load q (w.pop_event x).1 ≡ w.load q x
