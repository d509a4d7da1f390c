-- ===== src/Gate/Tests.antt =====
-- The gate of core/src/send.rs at concrete inputs.
use dropwire.Prelude.{
  ◌≡◌, refl, arith, ap, length, true, false, none, some, List, [], ◌∷◌, code_points, text_beq,
  text_eq, nat_eq,
}
use dropwire.Prelude.Map.{get, insert, remove}
use dropwire.Gate.{
  Gate, ProviderMessage, client_connected_notify, connection_closed, get_request_received,
  approve_one_to_one, register, on_message, consume_provider_events,
}
use dropwire.Gate.Lookups.{lookups, run_lookups, consume-lookups}
use dropwire.Gate.Apart.{IsApart, on_message_apart}
use dropwire.Gate.OneToOne.{AllSame, fetcher, fetchers, fetchers-AllSame}
use dropwire.Gate.Race.{late_request, late_request-refuses}

-- Transfer 1 serves the content "aa"; connection 7 belongs to device 100.
abbrev serving_gate : Gate
serving_gate = record { serving = (code_points "aa", 1) ∷ []; conns = (7, 100) ∷ []; bound = [] }

abbrev bound_gate : Gate
bound_gate = record serving_gate { bound = (code_points "aa", 100) ∷ [] }

abbrev two_devices : List ProviderMessage
two_devices =
    get_request_received 7 (code_points "aa")
    ∷ client_connected_notify 8 (some 200)
    ∷ get_request_received 8 (code_points "aa")
    ∷ connection_closed 7
    ∷ client_connected_notify 9 (some 100)
    ∷ get_request_received 9 (code_points "aa")
    ∷ []

first_device_only : fetchers serving_gate (code_points "aa") two_devices ≡ 100 ∷ 100 ∷ []
unfolding fetchers fetcher on_message approve_one_to_one get text_beq insert remove
first_device_only = refl

fetchers-AllSame_example : AllSame (fetchers serving_gate (code_points "aa") two_devices)
unfolding get text_beq
fetchers-AllSame_example = fetchers-AllSame serving_gate two_devices (code_points "aa") refl

late_request-refuses_example :
    let (left, approved) = late_request serving_gate (code_points "aa") 100 in
    (approved ≡ true)
    × (get (code_points "aa") left.serving ≡ none)
    × (get (code_points "aa") left.bound ≡ some 100)
    × ((approve_one_to_one (register left (code_points "aa") 2) (code_points "aa") (some 200)).1
        ≡ false)
unfolding get text_beq
late_request-refuses_example =
    late_request-refuses serving_gate (code_points "aa") 100 200 2 refl (λ e. omega (arith, e))

consume-lookups_example :
    let (g', rs) = consume_provider_events serving_gate two_devices in
    (lookups g', rs) ≡ run_lookups (lookups serving_gate) two_devices
consume-lookups_example = consume-lookups serving_gate two_devices

abbrev for_aa : ProviderMessage
for_aa = get_request_received 7 (code_points "aa")

abbrev for_b : ProviderMessage
for_b = get_request_received 8 (code_points "b")

apart : IsApart for_aa for_b
apart = (λ e. omega arith, λ e. omega (arith, ap (λ t. length t) e))

on_message_apart_example :
    let (g1, r) = on_message serving_gate for_aa in
    let (g12, r') = on_message g1 for_b in
    let (g2, s') = on_message serving_gate for_b in
    let (g21, s) = on_message g2 for_aa in (r ≡ s) × (r' ≡ s') × (lookups g12 ≡ lookups g21)
on_message_apart_example = on_message_apart serving_gate for_aa for_b apart
