-- ===== src/Shell/Pump/Tests.antt =====
-- Incoming offers told to the webview of src-tauri/src/lib.rs.
use dropwire.Prelude.{ℕ, ◌≡◌, ◌+◌, refl, none, true, false, List, [], ◌∷◌, code_points, length}
use mathlib.Core.List.{Sublist}
use dropwire.Consent.{IncomingOffer}
use dropwire.Discover.Session.{launch, refused, registered}
use dropwire.Shell.Pump.{ok, lagged, Command, starts, stops, run}
use dropwire.Shell.Pump.Delivered.{
  Delivers, pending, gives, lags, first_received, left_out, run-Sublist,
}

abbrev numbered : ℕ → IncomingOffer
numbered n = record {
  offer_id = n ∷ [];
  from_endpoint_id = code_points "e1";
  device_name = code_points "laptop";
  fingerprint = [];
  ticket = code_points "blob";
  title = code_points "a.txt";
  file_count = 1;
  total_bytes = 100;
  reply_transport = none;
}

abbrev offers : List IncomingOffer
offers = numbered 1 ∷ numbered 2 ∷ numbered 3 ∷ numbered 4 ∷ []

-- A start that fails, one that succeeds, and another after a stop.
abbrev calls : List Command
calls =
    starts refused (ok (numbered 1) ∷ [])
    ∷ starts registered (ok (numbered 1) ∷ lagged 1 ∷ ok (numbered 3) ∷ [])
    ∷ stops true
    ∷ starts registered (ok (numbered 3) ∷ [])
    ∷ []

-- The second offer is lost, the fourth is pending.
abbrev delivery : Delivers offers (ok (numbered 1) ∷ lagged 1 ∷ ok (numbered 3) ∷ [])
delivery = gives (numbered 1) _ _ (
    lags (numbered 2 ∷ []) (numbered 2 ∷ numbered 3 ∷ numbered 4 ∷ [])
      (numbered 3 ∷ numbered 4 ∷ []) _ refl (gives (numbered 3) _ _ (pending (numbered 4 ∷ []))))

run-Sublist_example :
    let told =
      run
        (code_points "macos")
        7777
        (record { world = launch (code_points "e9") (code_points "desk"); is_started = false })
        calls in
    Sublist told offers × (4 ≡ length told + 2)
unfolding first_received left_out
run-Sublist_example =
    run-Sublist (code_points "macos") 7777 (code_points "e9") (code_points "desk") calls offers
      delivery
