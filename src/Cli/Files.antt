-- ===== src/Cli/Files.antt =====
-- What the program uses of the packages os and encoding/json: files below a directory, and a codec.
use blades.Common.{String, List, Option, none, some, Bool, ◌≡◌}

-- A file is there, is not, or cannot be read.
pub data Read (B : Type 0) : Type 0 where
  found : B → Read B
  missing : Read B
  unreadable : String → Read B

-- How `os.Remove` ends.
pub data Removed : Type 0 where
  removed was_missing : Removed
  remove_failed : String → Removed

-- `D` is the state of a file system. An operation that fails has an error.
-- `join` is `filepath.Join`.
pub record Files (D B : Type 0) : Type 0 where
  pub read_file : D → String → Read B
  pub write_file : D → String → B → D × Option String
  pub remove : D → String → D × Removed
  pub mkdir_all : D → String → D × Option String
  pub join : String → String → String
  pub read_dir : D → String → Read (List (String × Bool))

-- The documented behaviour of the operations.
pub record IsFiles {D B : Type 0} (files : Files D B) : Type 0 where
  pub read-write :
      (d d' : D) (path : String) (b : B)
      → files.write_file d path b ≡ (d', none)
      → files.read_file d' path ≡ found b
  pub read-mkdir :
      (d : D) (dir path : String)
      → files.read_file (files.mkdir_all d dir).0 path ≡ files.read_file d path
  pub read-remove :
      (d d' : D) (path : String)
      → files.remove d path ≡ (d', removed)
      → files.read_file d' path ≡ missing
  pub read-was_missing :
      (d d' : D) (path : String)
      → files.remove d path ≡ (d', was_missing)
      → files.read_file d' path ≡ missing

-- `json.MarshalIndent` and `json.Unmarshal` for a type.
pub record Codec (A B : Type 0) : Type 0 where
  pub marshal : A → Option B
  pub unmarshal : B → Option A

-- What is marshalled of a value is unmarshalled to it.
pub record Reads {A B : Type 0} (codec : Codec A B) (a : A) : Type 0 where
  pub unmarshal-marshal : (b : B) → codec.marshal a ≡ some b → codec.unmarshal b ≡ some a
