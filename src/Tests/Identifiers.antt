-- ===== src/Tests/Identifiers.antt =====
-- Identifiers and the queue at concrete inputs.
use flintlock.Prelude.{ℕ, ◌==◌, ◌≡◌, ◌↔◌, refl, Bool, false, List, [], ◌∷◌, ◌++◌, arith}
use flintlock.Outcome.{ok}
use flintlock.Models.Vmid.{
  Vmid, new_vmid_from_string, to_string, split_vmid_from_string, new_vmid, split,
}
use flintlock.Models.Vmid.RoundTrip.{IsPrintable, round_trip_iff, to_string-from_string}
use flintlock.Queue.{Queue}
use flintlock.Queue.Laws.{Call, enqueues, dequeues, shuts_down, history, accepted, history-fifo}

abbrev one : Vmid
one = record { name = "one"; namespace = "ns"; uid = "01ABC" }

round_trip_iff_example : (new_vmid_from_string (to_string one) ≡ ok one) ↔ IsPrintable one
round_trip_iff_example = round_trip_iff one

to_string-from_string_example : (to_string one ≡ "ns/one/01ABC") × IsPrintable one
unfolding new_vmid_from_string split_vmid_from_string new_vmid split
to_string-from_string_example = to_string-from_string "ns/one/01ABC" one refl

abbrev equal : ℕ → ℕ → Bool
equal a b = a == b

equal_comm : (a b : ℕ) → equal a b ≡ equal b a
equal_comm a b = ground arith

abbrev two_items : Queue ℕ
two_items = record { items = 1 ∷ 2 ∷ []; shutting_down = false }

abbrev calls : List (Call ℕ)
calls = enqueues 2 ∷ dequeues ∷ enqueues 3 ∷ dequeues ∷ shuts_down ∷ []

history-fifo_example :
    (history equal calls two_items).0 ++ (history equal calls two_items).1.items
    ≡ two_items.items ++ accepted equal calls two_items
history-fifo_example = history-fifo equal calls two_items
