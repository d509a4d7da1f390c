-- ===== src/Gate/Race.antt =====
-- A request at the gate of core/src/send.rs while the send that serves the content stops. The two
-- awaits of `approve_one_to_one` and the two removals at the end of `run_send` each take their own
-- lock, so the removals may come between the two looks of the request.
use dropwire.Prelude.{
  ◌≡◌, ◌≢◌, refl, Bool, true, false, none, some, arith, if◌then◌else◌, nat_eq, nat_beq_iff, text_eq,
  Text, EndpointId,
}
use dropwire.Prelude.Map
use dropwire.Prelude.Map.{get-insert_self, get-remove_self}
use dropwire.Progress.{TransferId}
use dropwire.Gate.{Gate, bind_first, approve_one_to_one, register, unserve, unbind}

-- A request of a known device, with the two removals between its two looks.
pub late_request : Gate → Text → EndpointId → Gate × Bool
late_request g hash_key eid =
    let g' = unbind (unserve g hash_key) hash_key in
    if Map.contains_key hash_key g.serving
    then bind_first g' hash_key eid (Map.get hash_key g'.bound)
    else (g', true)

late_request_lem :
    (g : Gate) (hash_key : Text) (eid : EndpointId)
    → Map.contains_key hash_key g.serving ≡ true
    → let g' = unbind (unserve g hash_key) hash_key in
      late_request g hash_key eid ≡ (record g' { bound = Map.insert hash_key eid g'.bound }, true)
unfolding late_request unserve unbind bind_first
late_request_lem g hash_key eid serves = rw (serves, get-remove_self hash_key g.bound) refl

refuses_stranger :
    (g : Gate) (hash_key : Text) (eid stranger : EndpointId)
    → Map.contains_key hash_key g.serving ≡ true
    → Map.get hash_key g.bound ≡ some eid
    → stranger ≢ eid
    → (approve_one_to_one g hash_key (some stranger)).1 ≡ false
unfolding approve_one_to_one bind_first
refuses_stranger g hash_key eid stranger serves holds differs =
    ground (arith, nat_beq_iff eid stranger)

-- A stopped send may leave a device bound. A request of a known device sees the content served, the
-- send takes itself off both maps, and the request goes on: it is let in and the device is bound,
-- though the content is no longer served. When the content is sent again under any id, every other
-- device whose identity is known is refused from the start.
pub late_request-refuses :
    (g : Gate) (hash_key : Text) (eid stranger : EndpointId) (again : TransferId)
    → Map.contains_key hash_key g.serving ≡ true
    → stranger ≢ eid
    → let (left, approved) = late_request g hash_key eid in
      (approved ≡ true)
      × (Map.get hash_key left.serving ≡ none)
      × (Map.get hash_key left.bound ≡ some eid)
      × ((approve_one_to_one (register left hash_key again) hash_key (some stranger)).1 ≡ false)
unfolding unserve unbind register
late_request-refuses g hash_key eid stranger again serves differs =
    let g' = unbind (unserve g hash_key) hash_key in
    let bound = get-insert_self hash_key eid g'.bound in
    rw (late_request_lem g hash_key eid serves) (
      refl,
      get-remove_self hash_key g.serving,
      bound,
      refuses_stranger
          (register (record g' { bound = Map.insert hash_key eid g'.bound }) hash_key again)
          hash_key eid stranger
          (unfold register in rw (get-insert_self hash_key again g'.serving, Map.contains_key) refl)
          bound differs,
    )
