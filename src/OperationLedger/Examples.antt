-- ===== src/OperationLedger/Examples.antt =====
-- A ledger on a file system that never fails, and the theorems at it.
use nexigon.Base.{
  Bool, false, ℕ, true, Option, none, some, List, [], ◌∷◌, same_bytes, if◌then◌else◌,
}
use nexigon.OperationLedger.{
  OperationExecutionEntry, in_progress, completed, removed, FileSystem, Texts, Entries, dispatches,
  completes, removes_entry, LedgerCall,
}

-- The files, the one temporary file and whether it was synced; and of the files, whether their data was synced
-- and what a crash leaves.
pub record Files : Type 0 where
  pub now : List ℕ → Option (List ℕ)
  pub after_crash : List ℕ → Option (List ℕ)
  pub on_disk : List ℕ → Bool
  pub temporary : List ℕ
  pub temporary_synced : Bool

abbrev files : FileSystem Files
files = record {
  content = λ d p. d.now p;
  written = λ d t. d.temporary;
  durable = λ d p. d.after_crash p;
  flushed = λ d t. d.temporary_synced;
  stable = λ d p. d.on_disk p;
  create_temporary = λ d. (d, some 0);
  write_all = λ d t bytes. (record d { temporary = bytes; temporary_synced = false }, true);
  sync_all = λ d t. (record d { temporary_synced = true }, true);
  persist = λ d t path. (
    record d {
      now = λ p. if same_bytes p path then some d.temporary else d.now p;
      on_disk = λ p. if same_bytes p path then d.temporary_synced else d.on_disk p;
    },
    true,
  );
  discard = λ d t. d;
  remove_file = λ d path. (
    record d {
      now = λ p. if same_bytes p path then none else d.now p;
      on_disk = λ p. if same_bytes p path then true else d.on_disk p;
    },
    removed,
  );
  sync_directory =
      λ d. (record d { after_crash = λ p. if d.on_disk p then d.now p else none }, true);
}

abbrev json_of : OperationExecutionEntry → Option (List ℕ)
json_of (in_progress o s c) = some (o ∷ s ∷ c ∷ [])
json_of (completed o s c r) = some (o ∷ s ∷ c ∷ r ∷ [])

abbrev plain : Texts
plain = record { stringify = λ o. o ∷ []; decimal = λ s. s ∷ []; to_json = json_of }

abbrev no_files : Files
no_files = record {
  now = λ p. none;
  after_crash = λ p. none;
  on_disk = λ p. true;
  temporary = [];
  temporary_synced = false;
}

abbrev no_entries : Entries
no_entries = λ k. none

abbrev calls : List LedgerCall
calls = dispatches 5 0 9 ∷ completes 5 0 9 1 ∷ dispatches 6 1 9 ∷ removes_entry 5 0 ∷ []
