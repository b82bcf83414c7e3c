-- ===== src/OperationLedger/Laws.antt =====
-- What the ledger relies on of the file system and of the texts of ids and numbers.
use nexigon.Base.{ℕ, ◌≡◌, ◌≢◌, true, none, some, List, same_bytes, if◌then◌else◌, length}
use nexigon.OperationLedger.{removal_failed, FileSystem, Texts}

-- What the ledger relies on of the file system. The name of a file survives a crash once its directory was
-- synced, and its data once it was synced before it was renamed.
pub record IsFileSystem {ℓ} {D : Type ℓ} (fs : FileSystem D) : Type ℓ where
  pub create_keeps : (d : D) (p : List ℕ) → fs.content (fs.create_temporary d).0 p ≡ fs.content d p
  pub create_stays : (d : D) (p : List ℕ) → fs.stable (fs.create_temporary d).0 p ≡ fs.stable d p
  pub write_keeps :
      (d : D) (t : ℕ) (bytes p : List ℕ) → fs.content (fs.write_all d t bytes).0 p ≡ fs.content d p
  pub write_stays :
      (d : D) (t : ℕ) (bytes p : List ℕ) → fs.stable (fs.write_all d t bytes).0 p ≡ fs.stable d p
  pub write_writes :
      (d : D) (t : ℕ) (bytes : List ℕ)
      → (fs.write_all d t bytes).1 ≡ true
      → fs.written (fs.write_all d t bytes).0 t ≡ bytes
  pub sync_keeps : (d : D) (t : ℕ) (p : List ℕ) → fs.content (fs.sync_all d t).0 p ≡ fs.content d p
  pub sync_stays : (d : D) (t : ℕ) (p : List ℕ) → fs.stable (fs.sync_all d t).0 p ≡ fs.stable d p
  pub sync_written : (d : D) (t : ℕ) → fs.written (fs.sync_all d t).0 t ≡ fs.written d t
  pub sync_flushes :
      (d : D) (t : ℕ) → (fs.sync_all d t).1 ≡ true → fs.flushed (fs.sync_all d t).0 t ≡ true
  pub persist_replaces :
      (d : D) (t : ℕ) (path p : List ℕ)
      → (fs.persist d t path).1 ≡ true
      → fs.content (fs.persist d t path).0 p
        ≡ (if same_bytes p path then some (fs.written d t) else fs.content d p)
  pub persist_stays :
      (d : D) (t : ℕ) (path p : List ℕ)
      → (fs.persist d t path).1 ≡ true
      → fs.stable (fs.persist d t path).0 p
        ≡ (if same_bytes p path then fs.flushed d t else fs.stable d p)
  pub directory_keeps : (d : D) (p : List ℕ) → fs.content (fs.sync_directory d).0 p ≡ fs.content d p
  pub directory_stays : (d : D) (p : List ℕ) → fs.stable (fs.sync_directory d).0 p ≡ fs.stable d p
  pub directory_syncs :
      (d : D) (p : List ℕ)
      → (fs.sync_directory d).1 ≡ true
      → fs.stable d p ≡ true
      → fs.durable (fs.sync_directory d).0 p ≡ fs.content d p
  pub remove_removes :
      (d : D) (path p : List ℕ)
      → (fs.remove_file d path).1 ≢ removal_failed
      → fs.content (fs.remove_file d path).0 p
        ≡ (if same_bytes p path then none else fs.content d p)
  pub remove_stays :
      (d : D) (path p : List ℕ)
      → (fs.remove_file d path).1 ≢ removal_failed
      → fs.stable (fs.remove_file d path).0 p ≡ (if same_bytes p path then true else fs.stable d p)

-- What it relies on of the texts: those of ids are distinct and of one length, and those of numbers are
-- distinct.
pub record IsTexts (texts : Texts) : Type 0 where
  pub id_length : ℕ
  pub stringify_length : (o : ℕ) → length (texts.stringify o) ≡ id_length
  pub stringify_distinct : (o p : ℕ) → texts.stringify o ≡ texts.stringify p → o ≡ p
  pub decimal_distinct : (s t : ℕ) → texts.decimal s ≡ texts.decimal t → s ≡ t
