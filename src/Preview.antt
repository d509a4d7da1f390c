-- ===== src/Preview.antt =====
-- core/src/receive.rs, what a transfer holds before it is downloaded: its totals, and `inspect`, the
-- preview that the receiver sees first.
pub mod Totals
pub mod Listed
mod Tests
use dropwire.Prelude.{
  ℕ, suc, ◌+◌, ◌%◌, ◌^◌, Option, none, some, List, [], ◌∷◌, ◌++◌, map, ◌⊎◌, inl, inr, Text,
  code_points, sum, get_elem?, length,
}
use dropwire.Progress.{Route, FilePreview, TransferPreview}
use dropwire.Endpoint.{CoreError, invalid_ticket, unreachable, other}
use dropwire.Connection.{PathInfo, route_from_paths, Reach, connected, timed_out, refused}

-- Addition of `u64`s in a release build.
abbrev pub sum_u64 : List ℕ → ℕ
sum_u64 xs = sum xs % 2 ^ 64

-- The sizes of the chosen files; the first size is that of the metadata blob.
pub chosen_sizes : List ℕ → List ℕ → List ℕ
chosen_sizes sizes [] = []
chosen_sizes sizes (i ∷ idx) = elim (get_elem? sizes ((i + 1) % 2 ^ 64)) [
  | none ↦ chosen_sizes sizes idx
  | some n ↦ n ∷ chosen_sizes sizes idx
]

pub total_of : Option (List ℕ) → List ℕ → ℕ
unfolding chosen_sizes
total_of none sizes = sum_u64 sizes
total_of (some idx) sizes = sum_u64 (chosen_sizes sizes idx)

abbrev pub unwrap_or_zero : Option ℕ → ℕ
unwrap_or_zero none = 0
unwrap_or_zero (some n) = n

-- The list of files of `inspect`, from the file with index `i` on.
pub previews_from : ℕ → List ℕ → List Text → List FilePreview
previews_from i sizes [] = []
previews_from i sizes (name ∷ names) =
    record { name = name; size = unwrap_or_zero (get_elem? sizes (i + 1)) }
    ∷ previews_from (suc i) sizes names

-- `inspect`, once the sizes and the names are fetched.
pub preview : List ℕ → List Text → Route → TransferPreview
unfolding previews_from
preview sizes names route =
    let files = previews_from 0 sizes names in
    record {
      files = files;
      file_count = length files;
      total_bytes = sum_u64 (map (λ f. f.size) files);
      route = route;
    }

-- A request for children of a transfer by their places, its root included: the metadata is child 0,
-- and the file with index `i` is child `i + 1`.
pub record GetRequest : Type 0 where
  pub children : List ℕ

pub data GetProgressItem : Type 0 where
  progress done : GetProgressItem
  error : (message : Text) → GetProgressItem

-- The loop over the stream of a request, which may also just end.
pub fetch_metadata : List GetProgressItem → Option Text
fetch_metadata [] = none
fetch_metadata (progress ∷ items) = fetch_metadata items
fetch_metadata (done ∷ items) = none
fetch_metadata (error message ∷ items) = some (code_points "fetch metadata: " ++ message)

-- What `inspect` meets: whether the ticket parses, the connection, the sizes, the stream that answers
-- a request, and the names of the collection loaded after it.
pub record Glimpse : Type 0 where
  pub parsed : Option (Unit {0})
  pub reach : Reach
  pub sizes : Option (List ℕ)
  pub items : GetRequest → List GetProgressItem
  pub collection : Option (List Text)

abbrev pub metadata_request : GetRequest
metadata_request = record { children = 0 ∷ [] }

abbrev pub Inspected : Type 0
Inspected = CoreError ⊎ TransferPreview

with_collection : List ℕ → Route → Option (List Text) → Inspected
unfolding preview
with_collection sizes route none = inl (other (code_points "load collection metadata"))
with_collection sizes route (some names) = inr (preview sizes names route)

with_metadata : Glimpse → List ℕ → Route → Option Text → Inspected
unfolding with_collection
with_metadata g sizes route (some e) = inl (other e)
with_metadata g sizes route none = with_collection sizes route g.collection

with_sizes : Glimpse → List PathInfo → Option (List ℕ) → Inspected
unfolding with_metadata fetch_metadata
with_sizes g paths none = inl (other (code_points "fetch sizes"))
with_sizes g paths (some sizes) =
    with_metadata g sizes (route_from_paths paths) (fetch_metadata (g.items metadata_request))

with_reach : Glimpse → Reach → Inspected
unfolding with_sizes
with_reach g (connected paths) = with_sizes g paths g.sizes
with_reach g (refused e) = inl (unreachable e)
with_reach g timed_out =
    inl (
      unreachable
        (code_points "timed out — the sender may be offline or the link may have expired"))

with_ticket : Glimpse → Text → Option (Unit {0}) → Inspected
unfolding with_reach
with_ticket g ticket none = inl (invalid_ticket ticket)
with_ticket g ticket (some _) = with_reach g g.reach

pub inspect : Glimpse → Text → Inspected
unfolding with_ticket
inspect g ticket = with_ticket g ticket g.parsed
