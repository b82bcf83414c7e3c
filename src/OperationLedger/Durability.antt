-- ===== src/OperationLedger/Durability.antt =====
-- The entries that the ledger has in memory are those that its files hold.
use nexigon.Base.{
  ◌≢◌, either_way, ℕ, ◌≡◌, refl, sym, ◌∙◌, Bool, true, false, Option, none, some, List, same_bytes,
  if◌then◌else◌, ◌>>=◌,
}
use nexigon.OperationLedger.{
  OperationExecutionEntry, Removal, removed, not_found, removal_failed, FileSystem, Texts, Entries,
  key, entry_path, persist_synced, persist_written, persist_temporary, then_sync, persist_bytes,
  persist_entry, replaced, replace, removed_synced, removed_file, remove,
}
use nexigon.OperationLedger.Laws.{IsFileSystem, IsTexts}
use nexigon.OperationLedger.Naming.{same_names}

module _ {ℓ} {D : Type ℓ} (fs : FileSystem D) (texts : Texts) (disk : IsFileSystem fs)
    (laws : IsTexts texts) where
  -- The file of each execution holds the JSON of the entry in memory, also after a crash.
  pub record Mirrors (d : D) (m : Entries) : Type ℓ where
    pub printed :
        (o s : ℕ)
        → fs.content d (entry_path fs texts o s) ≡ (m (key fs texts o s) >>= texts.to_json)
    pub survives :
        (o s : ℕ)
        → fs.durable d (entry_path fs texts o s) ≡ (m (key fs texts o s) >>= texts.to_json)
    pub synced : (q : List ℕ) → fs.stable d q ≡ true

  -- One file is as given and has its data on the disk, and the others are as they were.
  abbrev Commits : D → List ℕ → Option (List ℕ) → D → Type 0
  Commits d path o d' =
      (q : List ℕ)
      → (fs.content d' q ≡ (if same_bytes q path then o else fs.content d q))
        × (fs.stable d' q ≡ (if same_bytes q path then true else fs.stable d q))

  abbrev Keeps : D → D → Type 0
  Keeps d d' = (q : List ℕ) → (fs.content d' q ≡ fs.content d q) × (fs.stable d' q ≡ fs.stable d q)

  -- Whatever has its data on the disk survives a crash.
  abbrev Survives : D → Type 0
  Survives d = (q : List ℕ) → fs.stable d q ≡ true → fs.durable d q ≡ fs.content d q

  persist_synced-Commits :
      (d : D) (path bytes : List ℕ) (t : ℕ) (r : D × Bool)
      → Keeps d r.0
      → fs.written r.0 t ≡ bytes
      → (r.1 ≡ true → fs.flushed r.0 t ≡ true)
      → (persist_synced fs texts path t r).1 ≡ true
      → Commits d path (some bytes) (persist_synced fs texts path t r).0
  persist_synced-Commits d path bytes t (d', true) k w f e q =
      let (same, still) = k q in
      (
        rw (disk.persist_replaces d' t path q e, w, same) refl,
        rw (disk.persist_stays d' t path q e, f refl, still) refl,
      )
  persist_synced-Commits d path bytes t (d', false) k w f e q = absurd (cc)

  persist_written-Commits :
      (d : D) (path bytes : List ℕ) (t : ℕ) (r : D × Bool)
      → Keeps d r.0
      → (r.1 ≡ true → fs.written r.0 t ≡ bytes)
      → (persist_written fs texts path t r).1 ≡ true
      → Commits d path (some bytes) (persist_written fs texts path t r).0
  persist_written-Commits d path bytes t (d', true) k w e q =
      persist_synced-Commits d path bytes t (fs.sync_all d' t)
        (λ p. (disk.sync_keeps d' t p ∙ (k p).0, disk.sync_stays d' t p ∙ (k p).1))
        (disk.sync_written d' t ∙ w refl) (disk.sync_flushes d' t) e q
  persist_written-Commits d path bytes t (d', false) k w e q = absurd (cc)

  persist_temporary-Commits :
      (d : D) (path bytes : List ℕ) (r : D × Option ℕ)
      → Keeps d r.0
      → (persist_temporary fs texts path bytes r).1 ≡ true
      → Commits d path (some bytes) (persist_temporary fs texts path bytes r).0
  persist_temporary-Commits d path bytes (d', none) k e q = absurd (cc)
  persist_temporary-Commits d path bytes (d', some t) k e q =
      persist_written-Commits d path bytes t (fs.write_all d' t bytes)
        (λ p. (disk.write_keeps d' t bytes p ∙ (k p).0, disk.write_stays d' t bytes p ∙ (k p).1))
        (disk.write_writes d' t bytes) e q

  sync_directory-Commits :
      (d d' : D) (path : List ℕ) (o : Option (List ℕ))
      → Commits d path o d'
      → (fs.sync_directory d').1 ≡ true
      → Commits d path o (fs.sync_directory d').0 × Survives (fs.sync_directory d').0
  sync_directory-Commits d d' path o c e = (
    λ q. (disk.directory_keeps d' q ∙ (c q).0, disk.directory_stays d' q ∙ (c q).1),
    λ q still.
        disk.directory_syncs d' q e (sym (disk.directory_stays d' q) ∙ still)
        ∙ sym (disk.directory_keeps d' q),
  )

  then_sync-Commits :
      (d : D) (path : List ℕ) (o : Option (List ℕ)) (r : D × Bool)
      → (r.1 ≡ true → Commits d path o r.0)
      → (then_sync fs texts r).1 ≡ true
      → Commits d path o (then_sync fs texts r).0 × Survives (then_sync fs texts r).0
  then_sync-Commits d path o (d', true) k e = sync_directory-Commits d d' path o (k refl) e
  then_sync-Commits d path o (d', false) k e = absurd (cc)

  -- What a success of the persistence of an entry says.
  abbrev Persisted : D → ℕ → ℕ → Option (List ℕ) → D → Type 0
  Persisted d o s printed d' =
      (bytes : List ℕ) × (printed ≡ some bytes)
      × Commits d (entry_path fs texts o s) (some bytes) d'
      × Survives d'

  persist_entry-Commits :
      (d : D) (o s : ℕ) (entry : OperationExecutionEntry)
      → (persist_entry fs texts d o s entry).1 ≡ true
      → Persisted d o s (texts.to_json entry) (persist_entry fs texts d o s entry).0
  unfolding persist_entry
  persist_entry-Commits d o s entry = prints (texts.to_json entry)
    where
      prints :
          (j : Option (List ℕ))
          → (persist_bytes fs texts d (entry_path fs texts o s) j).1 ≡ true
          → Persisted d o s j (persist_bytes fs texts d (entry_path fs texts o s) j).0
      prints none e = absurd (cc)
      prints (some bytes) e =
          let (c, alive) =
            then_sync-Commits d (entry_path fs texts o s) (some bytes)
              (persist_temporary fs texts (entry_path fs texts o s) bytes (fs.create_temporary d))
              (persist_temporary-Commits d (entry_path fs texts o s) bytes (fs.create_temporary d)
                (λ p. (disk.create_keeps d p, disk.create_stays d p)))
              e in
          (bytes, refl, c, alive)

  -- A change of one entry in memory and of its file.
  changed-Mirrors :
      (d d' : D) (m : Entries) (o s : ℕ) (e : Option OperationExecutionEntry) (f : Option (List ℕ))
      → f ≡ (e >>= texts.to_json)
      → Mirrors d m
      → Commits d (entry_path fs texts o s) f d'
      → Survives d'
      → Mirrors d' (λ j. if same_bytes j (key fs texts o s) then e else m j)
  changed-Mirrors d d' m o s e f g v c alive = record {
    printed = prints;
    survives =
        λ p t. alive (entry_path fs texts p t) (still (entry_path fs texts p t)) ∙ prints p t;
    synced = still;
  }
    where
      still : (q : List ℕ) → fs.stable d' q ≡ true
      still q =
          (c q).1
          ∙ either_way (λ b. b ≡ true) (same_bytes q (entry_path fs texts o s)) true (fs.stable d q)
              refl (v.synced q)

      goes :
          (p t : ℕ) (here : Bool)
          → (if here then f else fs.content d (entry_path fs texts p t))
            ≡ ((if here then e else m (key fs texts p t)) >>= texts.to_json)
      goes p t true = g
      goes p t false = v.printed p t

      prints :
          (p t : ℕ)
          → fs.content d' (entry_path fs texts p t) ≡ (
              (if same_bytes (key fs texts p t) (key fs texts o s) then e else m (key fs texts p t))
              >>= texts.to_json)
      prints p t =
          rw ((c (entry_path fs texts p t)).0, same_names fs texts laws p o t s)
            (goes p t (same_bytes (entry_path fs texts p t) (entry_path fs texts o s)))

  pub replace-Mirrors :
      (d : D) (m : Entries) (o s : ℕ) (entry : OperationExecutionEntry)
      → Mirrors d m
      → (replace fs texts d m o s entry).2 ≡ true
      → Mirrors (replace fs texts d m o s entry).0 (replace fs texts d m o s entry).1
  unfolding replace
  replace-Mirrors d m o s entry v =
      replaces (persist_entry fs texts d o s entry) (persist_entry-Commits d o s entry)
    where
      replaces :
          (r : D × Bool)
          → (r.1 ≡ true → Persisted d o s (texts.to_json entry) r.0)
          → (replaced fs texts r m o s entry).2 ≡ true
          → Mirrors (replaced fs texts r m o s entry).0 (replaced fs texts r m o s entry).1
      replaces (d', false) k e = absurd (cc)
      replaces (d', true) k e =
          let (bytes, printed, c, alive) = k refl in
          changed-Mirrors d d' m o s (some entry) (some bytes) (sym printed) v c alive

  pub remove-Mirrors :
      (d : D) (m : Entries) (o s : ℕ)
      → Mirrors d m
      → (remove fs texts d m o s).2 ≡ true
      → Mirrors (remove fs texts d m o s).0 (remove fs texts d m o s).1
  unfolding remove
  remove-Mirrors d m o s v = removes (fs.remove_file d (entry_path fs texts o s)) (λ h q. (
    disk.remove_removes d (entry_path fs texts o s) q h,
    disk.remove_stays d (entry_path fs texts o s) q h,
  ))
    where
      synced :
          (r : D × Bool)
          → (r.1 ≡ true → Commits d (entry_path fs texts o s) none r.0 × Survives r.0)
          → (removed_synced fs texts r m o s).2 ≡ true
          → Mirrors (removed_synced fs texts r m o s).0 (removed_synced fs texts r m o s).1
      synced (d', false) k e = absurd (cc)
      synced (d', true) k e =
          let (c, alive) = k refl in changed-Mirrors d d' m o s none none refl v c alive

      removes :
          (r : D × Removal)
          → (r.1 ≢ removal_failed → Commits d (entry_path fs texts o s) none r.0)
          → (removed_file fs texts r m o s).2 ≡ true
          → Mirrors (removed_file fs texts r m o s).0 (removed_file fs texts r m o s).1
      removes (d1, removed) a e =
          synced (fs.sync_directory d1)
            (sync_directory-Commits d d1 (entry_path fs texts o s) none (a (λ h. cc))) e
      removes (d1, not_found) a e =
          synced (fs.sync_directory d1)
            (sync_directory-Commits d d1 (entry_path fs texts o s) none (a (λ h. cc))) e
      removes (d1, removal_failed) a e = absurd (cc)
