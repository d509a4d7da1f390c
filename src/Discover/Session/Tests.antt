-- ===== src/Discover/Session/Tests.antt =====
-- The peers and the session of core/src/discover.rs at concrete inputs.
use dropwire.Prelude.{
  ◌≡◌, refl, true, false, none, [], ◌∷◌, ◌++◌, List, code_points, ℕ, text_beq, nat_eq, text_eq,
  arith, ◌⊎◌,
}
use dropwire.Prelude.Map
use dropwire.Discover.{
  Outside, ServiceInfo, ServiceEvent, service_resolved, service_removed, txt_eid, txt_name,
}
use dropwire.Discover.Peers.{fold_events, peer_after, get-fold_events, spoofed_removal}
use dropwire.Discover.Session.{
  World, launch, start, rename, is_running, list, registered, refused, go_live,
}
use dropwire.Discover.Session.Visibility.{
  Action, starts, renames, takes, folds, from_launch, folds_off, run_visible, rename_retry_off,
}

abbrev outside : Outside
outside = record { show_socket = λ s. s.address; to_lowercase = λ t. t; blake3 = λ t. t }

abbrev anna : ServiceInfo
anna = record {
  properties = (txt_eid, code_points "e1") ∷ (txt_name, code_points "anna") ∷ [];
  addresses_v4 = code_points "10.0.0.2" ∷ [];
  port = 4000;
  fullname = code_points "anna-e1";
}

abbrev ben : ServiceInfo
ben = record anna { properties = (txt_eid, code_points "e2") ∷ []; fullname = code_points "ben-e2" }

abbrev course : List (ℕ × ServiceEvent)
course =
    (5, service_resolved anna)
    ∷ (6, service_resolved ben)
    ∷ (7, service_removed [] (code_points "ben-e2"))
    ∷ []

abbrev calls_made : List Action
calls_made =
    starts registered 4000
    ∷ takes (service_resolved anna)
    ∷ folds 5
    ∷ renames refused true (code_points "desk") 4000
    ∷ takes (service_resolved ben)
    ∷ folds 6
    ∷ []

get-fold_events_example :
    Map.get (code_points "e1") (fold_events outside course [])
    ≡ peer_after outside (code_points "e1") course none
get-fold_events_example = get-fold_events outside (code_points "e1") course

spoofed_removal_example :
    Map.get (code_points "e1") (
      fold_events outside
        (course
          ++ ((8, service_resolved (record anna { fullname = code_points "mallory" }))
              ∷ (9, service_removed [] (code_points "mallory"))
              ∷ []))
        [])
    ≡ none
unfolding Map.get text_beq
spoofed_removal_example =
    spoofed_removal outside (code_points "e1") [] 8 9
      (record anna { fullname = code_points "mallory" }) course refl

run_visible_example :
    let w =
      (from_launch outside
        (code_points "linux")
        (code_points "e0")
        (code_points "pc")
        calls_made).0 in
    (w.state.running ≡ is_running w)
    × (is_running w ≡ false
        → (folds_off outside
              (code_points "linux")
              (launch (code_points "e0") (code_points "pc"), [])
              calls_made
            ≡ true)
          ⊎ (list outside w ≡ []))
run_visible_example =
    run_visible outside (code_points "linux") (code_points "e0") (code_points "pc") calls_made

abbrev live : World
unfolding start launch go_live
live =
    (start (code_points "linux") registered 4000 (launch (code_points "e0") (code_points "pc"))).0

rename_retry_off_example :
    let w' = (rename (code_points "linux") refused true (code_points "desk") 4000 live).0 in
    (is_running w' ≡ false)
    × (rename (code_points "linux") registered true (code_points "desk") 4000 w' ≡ (w', true))
unfolding start launch go_live is_running rename text_beq
rename_retry_off_example =
    rename_retry_off (code_points "linux") (code_points "desk") refused registered true 4000 live
      (λ e. ground arith) refl refl
