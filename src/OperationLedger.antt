-- ===== src/OperationLedger.antt =====
-- crates/apps/nexigon-agent/src/operation_ledger.rs: the ledger of the executions of device operations,
-- which survives a crash of the agent. The file system, JSON and the texts of ids and numbers are
-- arguments; a path is the name of a file in the ledger's directory. Ids and reports are numbers.
pub mod Laws
pub mod Naming
pub mod Durability
mod Examples
use nexigon.Base.{
  ℕ, ◌≡◌, Bool, true, false, Option, none, some, List, [], ◌∷◌, ◌++◌, same_bytes, if◌then◌else◌,
}

pub data OperationExecutionEntry : Type 0 where
  in_progress : (device_operation_id step_index claim_id : ℕ) → OperationExecutionEntry
  completed : (device_operation_id step_index claim_id report : ℕ) → OperationExecutionEntry

pub data PreviousExecution : Type 0 where
  no_execution : PreviousExecution
  was_in_progress : PreviousExecution
  was_completed : (report : ℕ) → PreviousExecution

pub data Removal : Type 0 where
  removed not_found removal_failed : Removal

-- The file system, as far as the ledger uses it. `content` and `written` are what its files and its
-- temporary files hold; `durable` is what its files hold after a crash at this moment, `flushed` tells whether
-- the data of a temporary file has reached the disk, and `stable` whether that of a file has.
pub record FileSystem {ℓ} (D : Type ℓ) : Type ℓ where
  pub content : D → List ℕ → Option (List ℕ)
  pub written : D → ℕ → List ℕ
  pub durable : D → List ℕ → Option (List ℕ)
  pub flushed : D → ℕ → Bool
  pub stable : D → List ℕ → Bool
  pub create_temporary : D → D × Option ℕ
  pub write_all : D → ℕ → List ℕ → D × Bool
  pub sync_all : D → ℕ → D × Bool
  pub persist : D → ℕ → List ℕ → D × Bool
  pub discard : D → ℕ → D
  pub remove_file : D → List ℕ → D × Removal
  pub sync_directory : D → D × Bool

-- How ids and numbers are printed, and entries are written.
pub record Texts : Type 0 where
  pub stringify : ℕ → List ℕ
  pub decimal : ℕ → List ℕ
  pub to_json : OperationExecutionEntry → Option (List ℕ)

-- The calls of the ledger that change it.
pub data LedgerCall : Type 0 where
  dispatches : (operation_id step_index claim_id : ℕ) → LedgerCall
  completes : (operation_id step_index claim_id report : ℕ) → LedgerCall
  removes_entry : (operation_id step_index : ℕ) → LedgerCall

-- The `BTreeMap` of entries, as a function of the key.
abbrev pub Entries : Type 0
Entries = List ℕ → Option OperationExecutionEntry

abbrev pub insert_entry : List ℕ → OperationExecutionEntry → Entries → Entries
insert_entry k e m = λ j. if same_bytes j k then some e else m j

abbrev pub remove_entry : List ℕ → Entries → Entries
remove_entry k m = λ j. if same_bytes j k then none else m j

abbrev pub found : Option OperationExecutionEntry → PreviousExecution
found none = no_execution
found (some (in_progress o s c)) = was_in_progress
found (some (completed o s c report)) = was_completed report

module _ {ℓ} {D : Type ℓ} (fs : FileSystem D) (texts : Texts) where
  abbrev pub key : ℕ → ℕ → List ℕ
  key operation_id step_index = texts.stringify operation_id ++ (58 ∷ texts.decimal step_index)

  -- The name ends in `.json`.
  abbrev pub entry_path : ℕ → ℕ → List ℕ
  entry_path operation_id step_index =
      texts.stringify operation_id
      ++ (46 ∷ (texts.decimal step_index ++ (46 ∷ 106 ∷ 115 ∷ 111 ∷ 110 ∷ [])))

  abbrev pub previous : Entries → ℕ → ℕ → PreviousExecution
  previous entries operation_id step_index = found (entries (key operation_id step_index))

  -- Each step of the closure, on the temporary file; on an error the file is dropped.
  abbrev pub persist_synced : List ℕ → ℕ → D × Bool → D × Bool
  persist_synced path temporary (d, true) = fs.persist d temporary path
  persist_synced path temporary (d, false) = (fs.discard d temporary, false)

  abbrev pub persist_written : List ℕ → ℕ → D × Bool → D × Bool
  persist_written path temporary (d, true) = persist_synced path temporary (fs.sync_all d temporary)
  persist_written path temporary (d, false) = (fs.discard d temporary, false)

  abbrev pub persist_temporary : List ℕ → List ℕ → D × Option ℕ → D × Bool
  persist_temporary path bytes (d, none) = (d, false)
  persist_temporary path bytes (d, some temporary) =
      persist_written path temporary (fs.write_all d temporary bytes)

  abbrev pub then_sync : D × Bool → D × Bool
  then_sync (d, true) = fs.sync_directory d
  then_sync (d, false) = (d, false)

  abbrev pub persist_bytes : D → List ℕ → Option (List ℕ) → D × Bool
  persist_bytes d path none = (d, false)
  persist_bytes d path (some bytes) =
      then_sync (persist_temporary path bytes (fs.create_temporary d))

  unfoldable pub persist_entry : D → ℕ → ℕ → OperationExecutionEntry → D × Bool
  persist_entry d operation_id step_index entry =
      persist_bytes d (entry_path operation_id step_index) (texts.to_json entry)

  abbrev pub replaced : D × Bool → Entries → ℕ → ℕ → OperationExecutionEntry → D × Entries × Bool
  replaced (d, true) entries operation_id step_index entry =
      (d, insert_entry (key operation_id step_index) entry entries, true)
  replaced (d, false) entries operation_id step_index entry = (d, entries, false)

  unfoldable pub replace : D → Entries → ℕ → ℕ → OperationExecutionEntry → D × Entries × Bool
  unfolding persist_entry
  replace d entries operation_id step_index entry =
      replaced (persist_entry d operation_id step_index entry) entries operation_id step_index entry

  abbrev pub mark_in_progress : D → Entries → ℕ → ℕ → ℕ → D × Entries × Bool
  mark_in_progress d entries operation_id step_index claim_id =
      replace d entries operation_id step_index (in_progress operation_id step_index claim_id)

  abbrev pub mark_completed : D → Entries → ℕ → ℕ → ℕ → ℕ → D × Entries × Bool
  mark_completed d entries operation_id step_index claim_id report =
      replace d entries operation_id step_index (completed operation_id step_index claim_id report)

  abbrev pub removed_synced : D × Bool → Entries → ℕ → ℕ → D × Entries × Bool
  removed_synced (d, true) entries operation_id step_index =
      (d, remove_entry (key operation_id step_index) entries, true)
  removed_synced (d, false) entries operation_id step_index = (d, entries, false)

  abbrev pub removed_file : D × Removal → Entries → ℕ → ℕ → D × Entries × Bool
  removed_file (d, removed) entries operation_id step_index =
      removed_synced (fs.sync_directory d) entries operation_id step_index
  removed_file (d, not_found) entries operation_id step_index =
      removed_synced (fs.sync_directory d) entries operation_id step_index
  removed_file (d, removal_failed) entries operation_id step_index = (d, entries, false)

  unfoldable pub remove : D → Entries → ℕ → ℕ → D × Entries × Bool
  remove d entries operation_id step_index =
      removed_file (fs.remove_file d (entry_path operation_id step_index)) entries operation_id
        step_index

  -- A call, and then the rest if it succeeds.
  abbrev pub then_call :
      D × Entries × Bool → (D → Entries → D × Entries × Bool) → D × Entries × Bool
  then_call (d, entries, true) rest = rest d entries
  then_call (d, entries, false) rest = (d, entries, false)

  unfoldable pub ledger_call : D → Entries → LedgerCall → D × Entries × Bool
  unfolding replace remove
  ledger_call d entries (dispatches operation_id step_index claim_id) =
      mark_in_progress d entries operation_id step_index claim_id
  ledger_call d entries (completes operation_id step_index claim_id report) =
      mark_completed d entries operation_id step_index claim_id report
  ledger_call d entries (removes_entry operation_id step_index) =
      remove d entries operation_id step_index

  unfoldable pub run_calls : D → Entries → List LedgerCall → D × Entries × Bool
  run_calls d entries [] = (d, entries, true)
  run_calls d entries (c ∷ cs) =
      then_call (ledger_call d entries c) (λ d' entries'. run_calls d' entries' cs)
