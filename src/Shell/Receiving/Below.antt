-- ===== src/Shell/Receiving/Below.antt =====
-- Where a receive that is started from src-tauri/src/lib.rs writes.
use dropwire.Prelude.{
  ◌≡◌, ◌≢◌, Bool, true, false, Option, none, some, List, [], ◌++◌, map, ◌⊎◌, inl, inr, Text,
}
use dropwire.Paths.{components, normal}
use dropwire.Transfers.{Engine}
use dropwire.Receive.{Effect, exported, Remote}
use dropwire.Shell.Receiving.{Surroundings, dest_or_default}

-- A file that is written is written strictly below the folder, by plain names.
pub IsBelow : Text → Effect → Type 0
IsBelow dir (exported i target) =
    (names : List Text) × (components target ≡ components dir ++ map normal names) × (names ≢ [])
IsBelow dir _ = Unit

abbrev pub is_ok : Text ⊎ Text → Bool
is_ok (inl e) = false
is_ok (inr id) = true

abbrev pub parses : Option Text → Bool
parses none = false
parses (some hash) = true

module _ (s : Surroundings) (ticket : Text) (dest : Option Text) (r : Remote) (g : Engine)
    (filled : dest ≢ some []) where
  abbrev dir : Text
  dir = dest_or_default s.download_dir dest
