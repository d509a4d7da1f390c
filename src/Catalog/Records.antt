-- ===== src/Catalog/Records.antt =====
-- The operations of core/src/catalog.rs, record by record.
use mathlib.Core.Option
use dropwire.Prelude.{
  ℕ, ◌≡◌, refl, false, Option, none, some, List, [], ◌∷◌, map, arith, if◌then◌else◌, Text, text_eq,
  text_beq_iff, nat_eq, ◌==◌, All, retain, inl, inr, Option-cases,
}
use dropwire.Prelude.Order.{text_leb_total}
use dropwire.Prelude.TreeMap
use dropwire.Prelude.TreeMap.{
  BTreeMap, IsOrdered, Above, values, get-insert, get-modify, insert-IsOrdered, modify-IsOrdered,
}
use dropwire.Progress.{TransferId}
use dropwire.Catalog.{
  Catalog, TransferRecord, Status, Env, is_active, with_status, interrupt, upsert, set_status, get,
  clear_finished, mark_stale_interrupted, load, decoded,
}

module _ (env : Env) where
  open env use {Fs, show, show_injective}

  -- After `upsert` the record is found under its own id, stamped with the time, and every other
  -- id finds what it found before.
  pub get-upsert :
      (now : ℕ) (rec : TransferRecord) (cat : Catalog) (fs : Fs) (j : TransferId)
      → get env j (upsert env now rec cat fs).0
        ≡ (if rec.id == j then some (record rec { updated_at = now }) else get env j cat)
  unfolding get upsert
  get-upsert now rec cat fs j = ground (
    arith,
    get-insert (show rec.id) (show j) (record rec { updated_at = now }) cat.entries,
    text_beq_iff (show rec.id) (show j),
    show_injective rec.id j,
  )

  -- `set_status` changes the named record's status and time, and its byte count where one is
  -- given; it touches no other record, and makes none where the id is unknown.
  pub get-set_status :
      (now : ℕ) (id : TransferId) (status : Status) (transferred : Option ℕ) (cat : Catalog)
      (fs : Fs) (j : TransferId)
      → get env j (set_status env now id status transferred cat fs).0 ≡ (
          if id == j
          then Option.map (with_status now status transferred) (get env j cat)
          else get env j cat)
  unfolding get set_status
  get-set_status now id status transferred cat fs j = ground (
    arith,
    get-modify (show id) (show j) (with_status now status transferred) cat.entries,
    text_beq_iff (show id) (show j),
    show_injective id j,
  )

-- What clearing keeps of a lookup.
abbrev pub keep_active : Option TransferRecord → Option TransferRecord
keep_active none = none
keep_active (some rec) = if is_active rec.status then some rec else none

-- Above every key of the map there is nothing to find.
get-Above : (k : Text) (m : BTreeMap TransferRecord) → Above k m → TreeMap.get k m ≡ none
unfolding TreeMap.get
get-Above k [] a = refl
get-Above k ((j, r) ∷ m) a = ground (arith, text_leb_total j k, text_beq_iff j k, get-Above k m a.1)

get-retain :
    (k : Text) (m : BTreeMap TransferRecord)
    → IsOrdered m
    → TreeMap.get k (retain (λ e. is_active e.1.status) m) ≡ keep_active (TreeMap.get k m)
unfolding TreeMap.get
get-retain k [] o = refl
get-retain k ((j, r) ∷ m) o =
    ground (arith, text_beq_iff j k, get-retain k m o.1, get-Above j m o.0)

get-interrupt :
    (k : Text) (m : BTreeMap TransferRecord)
    → TreeMap.get k (map (λ e. (e.0, interrupt e.1)) m) ≡ Option.map interrupt (TreeMap.get k m)
unfolding TreeMap.get
get-interrupt k [] = refl
get-interrupt k ((j, r) ∷ m) = ground (arith, get-interrupt k m)

-- No entry is marked as still running.
abbrev pub NoneActive : BTreeMap TransferRecord → Type 0
NoneActive = All (λ e. is_active e.1.status ≡ false)

interrupt-NoneActive :
    (m : BTreeMap TransferRecord) → NoneActive (map (λ e. (e.0, interrupt e.1)) m)
interrupt-NoneActive [] = tt
interrupt-NoneActive ((k, r) ∷ m) = (ground arith, interrupt-NoneActive m)

retain-Above :
    (k : Text) (m : BTreeMap TransferRecord)
    → Above k m
    → Above k (retain (λ e. is_active e.1.status) m)
retain-Above k [] a = tt
retain-Above k ((j, r) ∷ m) a = ground (arith, retain-Above k m a.1)

retain-IsOrdered :
    (m : BTreeMap TransferRecord) → IsOrdered m → IsOrdered (retain (λ e. is_active e.1.status) m)
retain-IsOrdered [] o = tt
retain-IsOrdered ((k, r) ∷ m) o = ground (arith, retain-IsOrdered m o.1, retain-Above k m o.0)

interrupt-Above :
    (k : Text) (m : BTreeMap TransferRecord)
    → Above k m
    → Above k (map (λ e. (e.0, interrupt e.1)) m)
interrupt-Above k [] a = tt
interrupt-Above k ((j, r) ∷ m) a = (a.0, interrupt-Above k m a.1)

interrupt-IsOrdered :
    (m : BTreeMap TransferRecord) → IsOrdered m → IsOrdered (map (λ e. (e.0, interrupt e.1)) m)
interrupt-IsOrdered [] o = tt
interrupt-IsOrdered ((k, r) ∷ m) o = (interrupt-Above k m o.0, interrupt-IsOrdered m o.1)

module _ (env : Env) where
  open env use {Fs, show, read, decode, decode-IsOrdered}

  -- Clearing the history forgets exactly the records that are not active: an active one is found
  -- as before, any other is gone.
  pub get-clear_finished :
      (cat : Catalog) (fs : Fs) (id : TransferId)
      → IsOrdered cat.entries
      → get env id (clear_finished env cat fs).0 ≡ keep_active (get env id cat)
  unfolding get clear_finished
  get-clear_finished cat fs id o = get-retain (show id) cat.entries o

  -- Marking stale records turns each active one into an interrupted one, keeps the rest of it and
  -- every other record, and leaves none active.
  pub get-mark_stale_interrupted :
      (cat : Catalog) (fs : Fs) (id : TransferId)
      → (get env id (mark_stale_interrupted env cat fs).0 ≡ Option.map interrupt (get env id cat))
        × NoneActive (mark_stale_interrupted env cat fs).0.entries
  unfolding get mark_stale_interrupted
  get-mark_stale_interrupted cat fs id =
      ground (arith, get-interrupt (show id) cat.entries, interrupt-NoneActive cat.entries)

  -- The calls that change the catalog.
  pub data Call : Type 0 where
    upserts : (now : ℕ) (rec : TransferRecord) → Call
    sets_status : (now : ℕ) (id : TransferId) (status : Status) (transferred : Option ℕ) → Call
    clears marks : Call

  unfoldable pub step : Catalog → Fs → Call → Catalog × Fs
  step cat fs (upserts now rec) = upsert env now rec cat fs
  step cat fs (sets_status now id status transferred) =
      set_status env now id status transferred cat fs
  step cat fs clears = clear_finished env cat fs
  step cat fs marks = mark_stale_interrupted env cat fs

  pub step-IsOrdered :
      (cat : Catalog) (fs : Fs) (c : Call)
      → IsOrdered cat.entries
      → IsOrdered (step cat fs c).0.entries
  unfolding step upsert set_status clear_finished mark_stale_interrupted
  step-IsOrdered cat fs (upserts now rec) o = insert-IsOrdered (show rec.id) _ cat.entries o
  step-IsOrdered cat fs (sets_status now id status transferred) o =
      modify-IsOrdered (show id) _ cat.entries o
  step-IsOrdered cat fs clears o = retain-IsOrdered cat.entries o
  step-IsOrdered cat fs marks o = ground (arith, interrupt-IsOrdered cat.entries o)

  load-IsOrdered : (path : Text) (fs : Fs) → IsOrdered (load env path fs).entries
  unfolding load
  load-IsOrdered path fs = elim (Option-cases (read path fs)) [
    | inl e ↦ rw (e, decoded) tt
    | inr (b, e) ↦ elim (Option-cases (decode b)) [
      | inl f ↦ rw (e, decoded) (rw f tt)
      | inr (m, f) ↦ rw (e, decoded) (rw f (decode-IsOrdered b m f))
    ]
  ]

  unfoldable pub run : Catalog → Fs → List Call → Catalog × Fs
  unfolding step
  run cat fs [] = (cat, fs)
  run cat fs (c ∷ cs) = let (cat', fs') = step cat fs c in run cat' fs' cs

  run-IsOrdered :
      (cat : Catalog) (fs : Fs) (cs : List Call)
      → IsOrdered cat.entries
      → IsOrdered (run cat fs cs).0.entries
  unfolding run
  run-IsOrdered cat fs [] o = o
  run-IsOrdered cat fs (c ∷ cs) o =
      run-IsOrdered (step cat fs c).0 (step cat fs c).1 cs (step-IsOrdered cat fs c o)

  -- From a catalog loaded from any file, however damaged, every sequence of calls keeps the keys
  -- strictly rising, so that no transfer has two records.
  pub run-load-IsOrdered :
      (path : Text) (fs : Fs) (cs : List Call) → IsOrdered (run (load env path fs) fs cs).0.entries
  run-load-IsOrdered path fs cs = run-IsOrdered (load env path fs) fs cs (load-IsOrdered path fs)
