-- ===== src/Catalog/Listing.antt =====
-- The order in which core/src/catalog.rs lists its records.
use mathlib.Core.List.{Perm}
use dropwire.Prelude.{ℕ, ◌≡◌, arith, nat_beq, retain}
use dropwire.Prelude.Sort.{IsSorted, sort_by-perm, sort_by-IsSorted, sort_by_stable}
use dropwire.Prelude.TreeMap.{values}
use dropwire.Catalog.{Catalog, newer_first, list}

-- `list` gives every record once, newest first, and records created in the same second in the
-- order of their keys.
pub list_newest_first :
    (cat : Catalog)
    → Perm (list cat) (values cat.entries)
      × IsSorted newer_first (list cat)
      × ((t : ℕ)
          → retain (λ r. nat_beq r.created_at t) (list cat)
            ≡ retain (λ r. nat_beq r.created_at t) (values cat.entries))
unfolding list
list_newest_first cat = (
  sort_by-perm newer_first (values cat.entries),
  sort_by-IsSorted newer_first (λ x y z h k. ground arith) (λ x y h. ground arith)
      (values cat.entries),
  λ t.
      sort_by_stable newer_first (λ r. nat_beq r.created_at t) (values cat.entries)
        (λ x y h k. ground arith),
)
