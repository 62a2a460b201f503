-- ===== src/Profile/Cancelled.antt =====
-- Profiling a table whose context is done before every column has its place.
use data_profiler.Prelude.{
  length-replicate, get_elem?-replicate, ℕ, ◌<◌, ◌≡◌, refl, ◌∙◌, true, false, Option, none, some,
  List, Str, length, get_elem?, replicate,
}
use data_profiler.Store.{ok}
use data_profiler.Profile.Gather.{Event, Gathered, gather, gather_all}
use data_profiler.Profile.Orders.{hands_in, all_found, gather-slot, gather-first}

module _ {P : Type 0} where
  -- A column whose goroutine sees that the context is done is left at the zero profile, and the table's profile
  -- is returned without an error, if no column that was read failed.
  pub gather_all-missing :
      (blank : P) (found : List (P × Option Str)) (es : List Event) (i : ℕ)
      → all_found found ≡ true
      → i < length found
      → hands_in i es ≡ false
      → (out : List P) × (gather_all blank found es ≡ ok out) × (get_elem? out i ≡ some blank)
  unfolding gather_all
  gather_all-missing blank found es i fine lt missing =
      let start : Gathered P = record { out = replicate (length found) blank; first = none } in
      let quiet : (gather found es start).first ≡ none = gather-first found fine es start in
      let slot = gather-slot found fine es i start (length-replicate (length found) blank) in
      (
        (gather found es start).out,
        rw quiet refl,
        rw missing at slot ∙ get_elem?-replicate (length found) i blank lt,
      )
