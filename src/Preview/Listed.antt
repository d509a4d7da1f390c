-- ===== src/Preview/Listed.antt =====
-- What a preview of core/src/receive.rs shows.
use dropwire.Prelude.{
  ℕ, suc, ◌+◌, ◌<◌, ◌∙◌, arith, get_elem?, ◌≡◌, refl, ap, subst, Option, none, some, List, [], ◌∷◌,
  map, length, inl, inr, Text,
}
use dropwire.Progress.{TransferPreview}
use dropwire.Connection.{PathInfo, route_from_paths, Reach, connected, timed_out, refused}
use dropwire.Preview.Totals.{shown_size, shown_from, size_at}
use dropwire.Preview.{
  sum_u64, unwrap_or_zero, previews_from, preview, fetch_metadata, Glimpse, metadata_request,
  Inspected, with_collection, with_metadata, with_sizes, with_reach, with_ticket, inspect,
}

names-previews_from :
    (i : ℕ) (sizes : List ℕ) (names : List Text)
    → map (λ f. f.name) (previews_from i sizes names) ≡ names
unfolding previews_from
names-previews_from i sizes [] = refl
names-previews_from i sizes (name ∷ names) = ap (◌∷◌ name) (names-previews_from (suc i) sizes names)

length-previews_from :
    (i : ℕ) (sizes : List ℕ) (names : List Text)
    → length (previews_from i sizes names) ≡ length names
unfolding previews_from
length-previews_from i sizes [] = refl
length-previews_from i sizes (name ∷ names) =
    ap (λ n. suc n) (length-previews_from (suc i) sizes names)

-- A preview `v` of what is behind `g`: the connection and the sizes are there, the metadata came
-- without an error, and the files are those of the collection, in its order.
pub record Shows (g : Glimpse) (v : TransferPreview) : Type 0 where
  paths : List PathInfo
  sizes : List ℕ
  reached : g.reach ≡ connected paths
  sized : g.sizes ≡ some sizes
  fetched : fetch_metadata (g.items metadata_request) ≡ none
  loaded : g.collection ≡ some (map (λ f. f.name) v.files)
  counted : v.file_count ≡ length v.files
  -- A file's size is that of the child after the metadata and the files before it.
  sized_each :
      (i : ℕ) → i < length v.files → shown_size v.files i ≡ unwrap_or_zero (get_elem? sizes (suc i))
  summed : v.total_bytes ≡ sum_u64 (map (λ f. f.size) v.files)
  routed : v.route ≡ route_from_paths paths

-- What a stage shows, unless it fails.
ShowsIf : Glimpse → Inspected → Type 0
ShowsIf g (inl e) = Unit
ShowsIf g (inr v) = Shows g v

module _ (g : Glimpse) (paths : List PathInfo) (sizes : List ℕ)
    (reached : g.reach ≡ connected paths) (sized : g.sizes ≡ some sizes) where
  with_collection-Shows :
      (o : Option (List Text))
      → g.collection ≡ o
      → fetch_metadata (g.items metadata_request) ≡ none
      → ShowsIf g (with_collection sizes (route_from_paths paths) o)
  unfolding with_collection ShowsIf preview
  with_collection-Shows none e f = tt
  with_collection-Shows (some names) e f = record {
    paths = paths;
    sizes = sizes;
    reached = reached;
    sized = sized;
    fetched = f;
    loaded = rw (names-previews_from 0 sizes names) e;
    counted = refl;
    sized_each = λ i h.
        shown_from 0 sizes names i (omega (arith, length-previews_from 0 sizes names))
        ∙ size_at sizes (0 + i + 1) (suc i) (omega arith);
    summed = refl;
    routed = refl;
  }

  with_metadata-Shows :
      (o : Option Text)
      → fetch_metadata (g.items metadata_request) ≡ o
      → ShowsIf g (with_metadata g sizes (route_from_paths paths) o)
  unfolding with_metadata ShowsIf
  with_metadata-Shows (some e) f = tt
  with_metadata-Shows none f = with_collection-Shows g.collection refl f

with_sizes-Shows :
    (g : Glimpse) (paths : List PathInfo) (o : Option (List ℕ))
    → g.reach ≡ connected paths
    → g.sizes ≡ o
    → ShowsIf g (with_sizes g paths o)
unfolding with_sizes ShowsIf
with_sizes-Shows g paths none reached sized = tt
with_sizes-Shows g paths (some sizes) reached sized =
    with_metadata-Shows g paths sizes reached sized _ refl

with_reach-Shows : (g : Glimpse) (how : Reach) → g.reach ≡ how → ShowsIf g (with_reach g how)
unfolding with_reach ShowsIf
with_reach-Shows g (connected paths) reached = with_sizes-Shows g paths g.sizes reached refl
with_reach-Shows g (refused m) reached = tt
with_reach-Shows g timed_out reached = tt

with_ticket-Shows :
    (g : Glimpse) (ticket : Text) (o : Option (Unit {0})) → ShowsIf g (with_ticket g ticket o)
unfolding with_ticket ShowsIf
with_ticket-Shows g ticket none = tt
with_ticket-Shows g ticket (some u) = with_reach-Shows g g.reach refl

-- A preview that is shown is true: the sender was reached and told the sizes, the metadata came
-- without an error, and the preview lists each file of the collection once, in its order, with their
-- number, the sizes that the sender told for them (0 where it told none), the sum of those sizes on 64
-- bits, and the route of the connection.
pub inspect-Shows :
    (g : Glimpse) (ticket : Text) (v : TransferPreview) → inspect g ticket ≡ inr v → Shows g v
unfolding inspect ShowsIf
inspect-Shows g ticket v e = subst (ShowsIf g) e (with_ticket-Shows g ticket g.parsed)
