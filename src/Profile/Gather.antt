-- ===== src/Profile/Gather.antt =====
-- internal/adapters/profile.go: how `ProfileTable` gathers what its goroutines find. They finish in any order,
-- one at a time under the mutex; the semaphore, which lets four of them run at once, only narrows the orders.
use data_profiler.Prelude.{
  ℕ, Option, none, some, List, [], ◌∷◌, Str, length, get_elem?, set, replicate,
}
use data_profiler.Store.{Result, ok, err}

-- What a goroutine does in the end: it hands in its column's profile, or it sees that the context is done
-- before it gets a place.
pub data Event : Type 0 where
  finishes : ℕ → Event
  gives_up : ℕ → Event

-- `out` and `first`
pub record Gathered (P : Type 0) : Type 0 where
  pub out : List P
  pub first : Option Str

module _ {P : Type 0} where
  -- `if e != nil && first == nil { first = e } else { out[i] = p }`
  abbrev pub hand_in : ℕ → P → Option Str → Option Str → List P → Gathered P
  hand_in i p (some e) none out = record { out = out; first = some e }
  hand_in i p (some e) (some f) out = record { out = set out i p; first = some f }
  hand_in i p none first out = record { out = set out i p; first = first }

  abbrev pub hand_in_found : ℕ → Option (P × Option Str) → Gathered P → Gathered P
  hand_in_found i none g = g
  hand_in_found i (some (p, e)) g = hand_in i p e g.first g.out

  -- `found` has what `profileColumn` returns for each column.
  unfoldable pub gather : List (P × Option Str) → List Event → Gathered P → Gathered P
  gather found [] g = g
  gather found (gives_up i ∷ es) g = gather found es g
  gather found (finishes i ∷ es) g = gather found es (hand_in_found i (get_elem? found i) g)

  abbrev pub result_of : Gathered P → Option Str → Result (List P)
  result_of g none = ok g.out
  result_of g (some e) = err e

  -- From the zero values to the end of `wg.Wait()`.
  unfoldable pub gather_all : P → List (P × Option Str) → List Event → Result (List P)
  gather_all blank found es =
      let g = gather found es (record { out = replicate (length found) blank; first = none }) in
      result_of g g.first
