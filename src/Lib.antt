-- ===== src/Lib.antt =====
-- dropwire: peer-to-peer file transfer. The engine is the Rust crate under core/, the desktop shell
-- the one under src-tauri/.
--
-- A sender imports files into a blob store and serves them under a ticket (Send); the first device
-- that fetches the content is the only one that may (Gate). A receiver connects, previews,
-- downloads and exports the files below a directory (Receive, Paths). Nearby devices find each
-- other over mDNS (Discover) and agree on a transfer by an offer (Offering) and its answer
-- (Consent), with a fingerprint to compare (Fingerprint). Transfers are told to the layers above as
-- a stream of events (Progress), and kept in a history on the disk (Catalog). A start of the engine
-- (Startup) takes the device's key from the disk (Identity) and builds the endpoint (Endpoint). The
-- shell keeps preferences and trusted devices (Settings).
--
-- Prelude: numbers, text, maps, sorting and the disk, as the source's standard library has them. A
--   `String` is the list of its code points, a `HashMap` an association list, a `BTreeMap` an
--   ordered one. `Prelude.Disk` is an interface: any behaviour of the machine, failed and torn
--   writes included, within what `std::fs` promises; `Prelude.Memory` is a disk that fills it.
-- Progress: core/src/progress.rs, the data types of the events.
-- Catalog: core/src/catalog.rs. `load`, `upsert`, `set_status`, `get`, `list`, `clear_finished`,
--   `mark_stale_interrupted`, `new_record` and `save`, on a catalog and a disk passed along.
--   Catalog.Saving is about the file, Catalog.Records about the entries, Catalog.Listing about
--   order, Catalog.Untold about the files that it leaves alone.
-- Gate: core/src/send.rs, `approve_one_to_one` and `consume_provider_events`, over the maps
--   `serving`, `conns` and `bound` of `Inner` (core/src/lib.rs); `register`, `unserve` and `unbind`
--   are the lines of `run_send` that touch them. One loop handles one message after the other;
--   Gate.Race puts the removals of a send that stops between the two locks of `approve_one_to_one`.
--   `forward` is the task that follows one request, its clock given as the milliseconds of each
--   update.
-- Send: core/src/send.rs, `run_send` and the task of `Core::send`: the files, the import, the
--   announcement and the serving loop, as lists of effects on the events, the gate and the history.
--   What iroh and the disk answer is the record `Sender`; the turns of the loop are a list, and a
--   run that uses them up is one that still serves.
-- Transfers: the map `active` of `Inner` in core/src/lib.rs, with `cancel`, and the lines of
--   core/src/send.rs and core/src/receive.rs that enter and take out its tokens.
-- Offering: core/src/offer.rs, `offer_nearby_dial`, its task and `deliver_offer`. How far a
--   delivery gets is a parameter; Offering.Answer joins it to Consent.
-- Identity: core/src/identity.rs. Endpoint: core/src/endpoint.rs over core/src/config.rs, up to the
--   calls that bind. Startup: `Core::start` of core/src/lib.rs with `open` of core/src/store.rs,
--   each of its steps able to fail, and `shutdown`; Startup.Layout is about the files of the data
--   directory.
-- Consent: core/src/offer.rs and core/src/control.rs. The state is `ConsentCtx`; a channel is named
--   by its connection. Consent.Session cuts the handler `Ctrl::accept` at its waits, and runs the
--   pieces of any number of handlers, the answers of the user and the nearby switch in any order.
-- Fingerprint: core/src/discover.rs, `fingerprint_for`. BLAKE3 is a parameter. The inner loop runs
--   on fuel, as many rounds as there are bits; each takes five of them, so it never runs out.
-- Paths: core/src/receive.rs, `sanitize_rel` and the join below the destination, over
--   `std::path::Component` as it is on Linux and macOS, with `/` as the only separator and no drive
--   prefixes. Windows is left out.
-- Receive: core/src/receive.rs, `run_receive` in stages that follow its early returns, the task of
--   `spawn_receive`, with the pace of its progress events. Connection has the timeout of a
--   connection and its route, Preview is `inspect` with the totals that it shares with
--   `run_receive`. What iroh, the store and the disk answer is the record `Remote`; what the run
--   does is a list of effects. Sums of `u64`s wrap.
-- Discover: core/src/discover.rs, `apply_event`, `NearbyState` and `sanitize_instance`, with the
--   calls of `Core` in core/src/offer.rs that drive them. Peer tables have addresses, since the
--   session and `SUBSCRIBERS` share them. The browse thread copies `SUBSCRIBERS` and folds an event
--   into one copied table after the other, with calls in between (Discover.Session.Late shows a
--   stop there). How far a registration gets is a parameter of each call.
-- Shell: src-tauri/src/lib.rs, `set_device_name` and the set-up of the app in `run`, as far as they
--   are about the name of the device; Shell.Windows, the windows and the tray, where Tauri's way to
--   end an app is a parameter; Shell.Pump, the task that tells incoming offers; Shell.Snippets,
--   `write_text_file`; Shell.Receiving, `start_receive`, `start_receive_selected` and
--   `cancel_transfer`, with the calls of core/src/receive.rs below them.
-- Control: core/src/control.rs, `send_control` and `dial_ctrl`, with the devices as the sessions of
--   Consent.
-- Settings: src-tauri/src/settings.rs, with `set_pref`, `trust_remember` and `trust_forget` of
--   src-tauri/src/lib.rs.
--
-- From outside come, as parameters with what their documentation promises: serde_json, iroh and its
-- blob store, the ticket parser, BLAKE3, the mDNS daemon, Unicode lower case and the disk. Loops
-- are structural recursion over the list of what they read, so none but the one named above has
-- fuel.
--
-- Not modelled: paths on Windows; the router and the event channel, which are calls of iroh; the
-- relay and the hooks of the tests (feature `test-utils`); and the dialogs, the QR code, the panic
-- log, the place of the panel on the screen and the commands of src-tauri/src/lib.rs that only pass
-- their arguments on. The web pages under ui/ and www/ and the scripts under infra/ are in other
-- languages.
pub mod Prelude
pub mod Progress
pub mod Catalog
pub mod Gate
pub mod Fingerprint
pub mod Consent
pub mod Paths
pub mod Settings
pub mod Discover
pub mod Connection
pub mod Control
pub mod Preview
pub mod Receive
pub mod Send
pub mod Transfers
pub mod Offering
pub mod Identity
pub mod Endpoint
pub mod Startup
pub mod Shell
