-- ===== src/Cli/Cron/Saving.antt =====
-- What a save leaves in the file.
use blades.Common.{ℕ, ◌≡◌, refl, ◌∙◌, String, Option, none, some, Result, err, ok}
use blades.Cli.Files.{found}
use blades.Cli.Cron.Store.{
  Store, StoreFiles, Service, after_rename, after_close, after_write, after_create, after_encode,
  after_mkdir, save_locked,
}

-- The documented behaviour of the operations: only a rename changes the file, and only where it
-- succeeds; then the file has what was written to the temporary file.
pub record IsStoreFiles {D B : Type 0} (files : StoreFiles D B) : Type 0 where
  pub read_temp : D → String → Option B
  pub read-mkdir : (d : D) → files.read_file (files.mkdir_all d).0 ≡ files.read_file d
  pub read-create : (d : D) → files.read_file (files.create_temp d).0 ≡ files.read_file d
  pub read-write :
      (d : D) (name : String) (bytes : B)
      → files.read_file (files.write_temp d name bytes).0 ≡ files.read_file d
  pub read-close :
      (d : D) (name : String) → files.read_file (files.close_temp d name).0 ≡ files.read_file d
  pub read-remove :
      (d : D) (name : String) → files.read_file (files.remove d name) ≡ files.read_file d
  pub read-not_renamed :
      (d d' : D) (name error : String)
      → files.rename d name ≡ (d', some error)
      → files.read_file d' ≡ files.read_file d
  pub temp-write :
      (d d' : D) (name : String) (bytes : B)
      → files.write_temp d name bytes ≡ (d', none)
      → read_temp d' name ≡ some bytes
  pub temp-close :
      (d : D) (name : String) → read_temp (files.close_temp d name).0 name ≡ read_temp d name
  pub read-rename :
      (d d' : D) (name : String) (bytes : B)
      → files.rename d name ≡ (d', none)
      → read_temp d name ≡ some bytes
      → files.read_file d' ≡ found bytes

module _ {D B : Type 0} (files : StoreFiles D B) where
  -- A save changes only the time in the service.
  after_rename-st :
      (name : String) (s : Service) (r : D × Option String)
      → (after_rename files name s r).1.st ≡ s.st
  after_rename-st name s (d, some error) = refl
  after_rename-st name s (d, none) = by_stat (files.stat d)
    where
      by_stat :
          (mtime : Option ℕ)
          → (elim mtime as (λ _. D × Service × Option String) [
            | none ↦ (d, s, none)
            | some mtime ↦ (d, record s { last_mtime = mtime }, none)
          ]).1.st
            ≡ s.st
      by_stat none = refl
      by_stat (some mtime) = refl

  after_close-st :
      (name : String) (s : Service) (r : D × Option String)
      → (after_close files name s r).1.st ≡ s.st
  after_close-st name s (d, some error) = refl
  after_close-st name s (d, none) = after_rename-st name s (files.rename d name)

  after_write-st :
      (name : String) (s : Service) (r : D × Option String)
      → (after_write files name s r).1.st ≡ s.st
  after_write-st name s (d, some error) = refl
  after_write-st name s (d, none) = after_close-st name s (files.close_temp d name)

  after_create-st :
      (bytes : B) (s : Service) (r : D × Result String String)
      → (after_create files bytes s r).1.st ≡ s.st
  after_create-st bytes s (d, err error) = refl
  after_create-st bytes s (d, ok name) = after_write-st name s (files.write_temp d name bytes)

  after_mkdir-st : (s : Service) (r : D × Option String) → (after_mkdir files s r).1.st ≡ s.st
  after_mkdir-st s (d, some error) = refl
  after_mkdir-st s (d, none) = by_encode (files.encode s.st)
    where
      by_encode : (bytes : Option B) → (after_encode files bytes s d).1.st ≡ s.st
      by_encode none = refl
      by_encode (some bytes) = after_create-st bytes s (files.create_temp d)

  pub save_locked-st : (d : D) (s : Service) → (save_locked files d s).1.st ≡ s.st
  unfolding save_locked
  save_locked-st d s = after_mkdir-st s (files.mkdir_all d)

-- The file is as it was after an error, and has the encoded store otherwise.
abbrev pub IsAtomic :
    {D B : Type 0} (files : StoreFiles D B) → D → Store → D × Service × Option String → Type 0
IsAtomic files d st (d', s', some error) = files.read_file d' ≡ files.read_file d
IsAtomic {D} {B} files d st (d', s', none) =
    (bytes : B) × (files.encode st ≡ some bytes) × (files.read_file d' ≡ found bytes)

module _ {D B : Type 0} (files : StoreFiles D B) (lawful : IsStoreFiles files) (d0 : D) where
  -- The file is still as at the start.
  abbrev IsKept : D → Type 0
  IsKept d = files.read_file d ≡ files.read_file d0

  IsKept-remove : (d : D) (name : String) → IsKept d → IsKept (files.remove d name)
  IsKept-remove d name kept = lawful.read-remove d name ∙ kept

  after_rename-IsAtomic :
      (d : D) (name : String) (bytes : B) (s : Service) (r : D × Option String)
      → files.encode s.st ≡ some bytes
      → files.rename d name ≡ r
      → lawful.read_temp d name ≡ some bytes
      → IsKept d
      → IsAtomic files d0 s.st (after_rename files name s r)
  after_rename-IsAtomic d name bytes s (d', some error) encoded eq temp kept =
      IsKept-remove d' name (lawful.read-not_renamed d d' name error eq ∙ kept)
  after_rename-IsAtomic d name bytes s (d', none) encoded eq temp kept = by_stat (files.stat d')
    where
      by_stat :
          (mtime : Option ℕ)
          → IsAtomic files d0 s.st (elim mtime as (λ _. D × Service × Option String) [
            | none ↦ (d', s, none)
            | some mtime ↦ (d', record s { last_mtime = mtime }, none)
          ])
      by_stat none = (bytes, encoded, lawful.read-rename d d' name bytes eq temp)
      by_stat (some mtime) = (bytes, encoded, lawful.read-rename d d' name bytes eq temp)

  after_close-IsAtomic :
      (name : String) (bytes : B) (s : Service) (r : D × Option String)
      → files.encode s.st ≡ some bytes
      → lawful.read_temp r.0 name ≡ some bytes
      → IsKept r.0
      → IsAtomic files d0 s.st (after_close files name s r)
  after_close-IsAtomic name bytes s (d, some error) encoded temp kept = IsKept-remove d name kept
  after_close-IsAtomic name bytes s (d, none) encoded temp kept =
      after_rename-IsAtomic d name bytes s (files.rename d name) encoded refl temp kept

  after_write-IsAtomic :
      (d : D) (name : String) (bytes : B) (s : Service) (r : D × Option String)
      → files.encode s.st ≡ some bytes
      → files.write_temp d name bytes ≡ r
      → IsKept r.0
      → IsAtomic files d0 s.st (after_write files name s r)
  after_write-IsAtomic d name bytes s (d', some error) encoded eq kept =
      IsKept-remove (files.close_temp d' name).0 name (lawful.read-close d' name ∙ kept)
  after_write-IsAtomic d name bytes s (d', none) encoded eq kept =
      after_close-IsAtomic name bytes s (files.close_temp d' name) encoded
        (lawful.temp-close d' name ∙ lawful.temp-write d d' name bytes eq)
        (lawful.read-close d' name ∙ kept)

  after_create-IsAtomic :
      (bytes : B) (s : Service) (r : D × Result String String)
      → files.encode s.st ≡ some bytes
      → IsKept r.0
      → IsAtomic files d0 s.st (after_create files bytes s r)
  after_create-IsAtomic bytes s (d, err error) encoded kept = kept
  after_create-IsAtomic bytes s (d, ok name) encoded kept =
      after_write-IsAtomic d name bytes s (files.write_temp d name bytes) encoded refl
        (lawful.read-write d name bytes ∙ kept)

  after_mkdir-IsAtomic :
      (s : Service) (r : D × Option String)
      → IsKept r.0
      → IsAtomic files d0 s.st (after_mkdir files s r)
  after_mkdir-IsAtomic s (d, some error) kept = kept
  after_mkdir-IsAtomic s (d, none) kept = by_encode (files.encode s.st) refl
    where
      by_encode :
          (bytes : Option B)
          → files.encode s.st ≡ bytes
          → IsAtomic files d0 s.st (after_encode files bytes s d)
      by_encode none encoded = kept
      by_encode (some bytes) encoded =
          after_create-IsAtomic bytes s (files.create_temp d) encoded (lawful.read-create d ∙ kept)

-- A save is atomic: after an error the file is as it was, and otherwise it has the encoded store.
pub save_locked-IsAtomic :
    {D B : Type 0} (files : StoreFiles D B) (lawful : IsStoreFiles files) (d : D) (s : Service)
    → IsAtomic files d s.st (save_locked files d s)
unfolding save_locked
save_locked-IsAtomic files lawful d s =
    after_mkdir-IsAtomic files lawful d s (files.mkdir_all d) (lawful.read-mkdir d)
