-- ===== src/Examples/Queues.antt =====
-- The theorems on the batch, with the event service of the table.
use Prim.Native.String.{String}
use text.Mathlib.Text.{◌==◌ as str_eq}
use trademgen.Prelude.{
  ℕ, zero, suc, ◌+◌, ◌≤◌, ◌≡◌, refl, sym, ◌≢◌, ◌⊎◌, inl, inr, true, false, some, List, [], ◌∷◌,
  ◌++◌, arith, ◌==◌, Bool-cases, length, Fault, out_of_fuel, ok, err,
}
use trademgen.Prelude.Int.{ℤ, ◌-ℤ◌}
use trademgen.Stream.{sta_ord}
use trademgen.Events.{EventType, bkg_req, cx, Event, booking, KeepsStreams, IsQueue, IsAmong}
use trademgen.Service
use trademgen.Service.{Context}
use trademgen.Batch.{process_events}
use trademgen.Batch.Ends.{events_left, process_events_end}
use trademgen.Examples.Setting.{plain}
use trademgen.Examples.Services.{
  Table, find_stream, first_numbers, rest_of, table, table-IsMemory, world, next_answer,
}

IsAmong-append :
    (q : ℕ) (xs ys : List ℕ) → IsAmong ⦃p = plain⦄ q ys → IsAmong ⦃p = plain⦄ q (xs ++ ys)
IsAmong-append q [] ys h = h
IsAmong-append q (x ∷ xs) ys h = inr (IsAmong-append q xs ys h)

IsAmong-before :
    (q : ℕ) (xs ys : List ℕ) → IsAmong ⦃p = plain⦄ q xs → IsAmong ⦃p = plain⦄ q (xs ++ ys)
IsAmong-before q [] ys h = absurd h
IsAmong-before q (x ∷ xs) ys (inl e) = inl e
IsAmong-before q (x ∷ xs) ys (inr h) = inr (IsAmong-before q xs ys h)

find_stream-IsAmong :
    (key : String) (n q : ℕ) (names : ℕ → String)
    → find_stream key n names ≡ some q
    → IsAmong ⦃p = plain⦄ q (first_numbers n)
find_stream-IsAmong key zero q names h = absurd (ground arith)
find_stream-IsAmong key (suc n) q names h = elim (Bool-cases (str_eq (names n) key)) [
  | inl t ↦
      IsAmong-append q (first_numbers n) (n ∷ []) (inl (let e : n ≡ q = ground arith in sym e))
  | inr f ↦
      IsAmong-before q (first_numbers n) (n ∷ []) (find_stream-IsAmong key n q names (ground arith))
]

pub table-KeepsStreams : KeepsStreams ⦃p = plain⦄ table
table-KeepsStreams = record {
  find-store = λ key q s x. refl;
  find-add_event = λ key e x. refl;
  find-update_status = updated;
  list-store = λ q s x. refl;
  list-add_event = λ e x. refl;
  list-update_status = listed;
  find-list = λ key q x h. find_stream-IsAmong key x.count q x.names h;
}
  where
    updated :
        (key : String) (e : EventType) (n : ℤ) (x : Table)
        → table.find key (table.update_status e n x) ≡ table.find key x
    updated key bkg_req n x = refl
    updated key cx n x = refl

    listed :
        (e : EventType) (n : ℤ) (x : Table) → table.list (table.update_status e n x) ≡ table.list x
    listed bkg_req n x = refl
    listed cx n x = refl

pub table-IsQueue : IsQueue ⦃p = plain⦄ table
table-IsQueue = record {
  size = λ x. length x.events;
  done-size = λ x. refl;
  size-pop = λ x h. popped x.events h;
  size-add_event = λ e x. refl;
  size-store = λ q s x. refl;
  size-update_status = updated;
  list-pop = λ x. refl;
  load-pop = λ q x. refl;
}
  where
    popped :
        (es : List (Event ⦃p = plain⦄))
        → (length es == 0) ≡ false
        → length es ≡ suc (length (rest_of es))
    popped [] h = absurd (ground arith)
    popped (e ∷ es) h = refl

    updated :
        (e : EventType) (n : ℤ) (x : Table)
        → length (table.update_status e n x).events ≡ length x.events
    updated bkg_req n x = refl
    updated cx n x = refl

-- A request in the queue, and two that are left of the stream.
abbrev pub waiting : Context ⦃p = plain⦄ table
waiting = record {
  world = table.add_event (booking (next_answer.0.0)) world;
  uniform_generator = 0;
}

process_events_end_example :
    ((f : Fault) × (process_events ⦃p = plain⦄ table 3 0 sta_ord 0 waiting ≡ err f)
      × (f ≢ out_of_fuel))
    ⊎ ((m : ℕ) × (d : Context ⦃p = plain⦄ table) × (process_events ⦃p = plain⦄ table 3 0 sta_ord 0
            waiting
          ≡ ok (m, d))
        × (Service.is_queue_done ⦃p = plain⦄ table d ≡ true)
        × (0 ≤ m)
        × (m + events_left ⦃p = plain⦄ table table-IsMemory table-KeepsStreams table-IsQueue d ≤ 3))
unfolding table-IsQueue ◌-ℤ◌
process_events_end_example =
    process_events_end ⦃p = plain⦄ table table-IsMemory table-KeepsStreams table-IsQueue 3 0 0
      waiting (omega arith)
