-- ===== src/Discover/Session/Late.antt =====
-- The pump of core/src/discover.rs beside a stop: it uses its copy of `SUBSCRIBERS` after it let go
-- of the lock.
use dropwire.Prelude.{
  ℕ, ◌≡◌, ◌≢◌, refl, Bool, false, some, [], ◌∷◌, text_eq, nat_eq, text_beq_iff, Text, arith, ap,
  ◌∙◌,
}
use dropwire.Prelude.Map
use dropwire.Prelude.Map.{get-insert_self}
use dropwire.Prelude.Sort.{sort_by}
use dropwire.Discover.{
  Outside, ServiceInfo, service_resolved, txt_eid, entry_of, resolve, apply_event, listed,
}
use dropwire.Discover.Session.{
  World, is_running, list, stop, take_event, fold_next, fold_in, table_of,
}
use dropwire.Discover.Session.Visibility.{takes, stops, folds, act, run}

module _ (out : Outside) (os : Text) where
  one_listed :
      (self_eid other : Text) (now : ℕ) (info : ServiceInfo)
      → Map.get txt_eid info.properties ≡ some other
      → other ≢ self_eid
      → listed out self_eid (apply_event out now (service_resolved info) [])
        ≡ (entry_of out now info other).device ∷ []
  unfolding listed apply_event resolve entry_of sort_by Map.insert
  one_listed self_eid other now info announced foreign =
      rw announced (ground (arith, text_beq_iff other self_eid))

  -- A device may be listed while the session is off the air. The pump copies the subscribed table for
  -- the announcement of another device, the session is stopped, and the pump folds the announcement
  -- into its copy: nothing is advertised, and the device is listed.
  pub fold_late :
      (w : World) (is_up : Bool) (now : ℕ) (info : ServiceInfo) (other : Text)
      → w.subscribers ≡ w.state.peers ∷ []
      → Map.get txt_eid info.properties ≡ some other
      → other ≢ w.state.self_eid
      → let acts = takes (service_resolved info) ∷ stops is_up ∷ folds now ∷ [] in
        let w' = (run out os (w, []) acts).0 in
        (is_running w' ≡ false) × (list out w' ≡ (entry_of out now info other).device ∷ [])
  unfolding run act take_event fold_next fold_in stop is_running list
  fold_late w is_up now info other subscribed announced foreign =
      let heard = apply_event out now (service_resolved info) [] in
      let cleared = Map.insert w.state.peers [] w.tables in
      rw (subscribed, get-insert_self w.state.peers [] w.tables)
        (
          refl,
          ap (λ m. listed out w.state.self_eid (table_of m))
                (get-insert_self w.state.peers heard cleared)
              ∙ one_listed w.state.self_eid other now info announced foreign,
        )
