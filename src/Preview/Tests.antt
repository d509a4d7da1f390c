-- ===== src/Preview/Tests.antt =====
-- Previews of core/src/receive.rs at concrete inputs.
use dropwire.Prelude.{◌%◌, ◌+◌, ◌^◌, ◌≡◌, refl, none, some, [], ◌∷◌, code_points, Text, List, inr}
use dropwire.Progress.{direct, unknown, TransferPreview}
use dropwire.Preview.{
  total_of, preview, previews_from, Glimpse, progress, done, inspect, with_ticket, with_reach,
  with_sizes, with_metadata, with_collection, fetch_metadata,
}
use dropwire.Preview.Totals.{total_whole}
use dropwire.Preview.Listed.{Shows, inspect-Shows}
use dropwire.Connection.{connected, route_from_paths}

abbrev names : List Text
names = code_points "a.txt" ∷ code_points "b/c.txt" ∷ []

total_whole_example :
    total_of none (90 ∷ 10 ∷ 20 ∷ [])
    ≡ (90 + (preview (90 ∷ 10 ∷ 20 ∷ []) names direct).total_bytes) % 2 ^ 64
total_whole_example = total_whole 90 (10 ∷ 20 ∷ []) names direct refl

abbrev glimpse : Glimpse
glimpse = record {
  parsed = some tt;
  reach = connected [];
  sizes = some (90 ∷ 10 ∷ 20 ∷ []);
  items = λ q. progress ∷ done ∷ [];
  collection = some names;
}

abbrev shown : TransferPreview
shown = record {
  files =
      (record { name = code_points "a.txt"; size = 10 })
      ∷ (record { name = code_points "b/c.txt"; size = 20 })
      ∷ [];
  file_count = 2;
  total_bytes = 30;
  route = unknown;
}

inspected : inspect glimpse (code_points "t1") ≡ inr shown
unfolding inspect with_ticket with_reach with_sizes with_metadata with_collection fetch_metadata
    preview previews_from route_from_paths
inspected = refl

inspect-Shows_example : Shows glimpse shown
inspect-Shows_example = inspect-Shows glimpse (code_points "t1") shown inspected
