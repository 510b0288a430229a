-- ===== src/Cli/Cron/Store.antt =====
-- loadLocked and saveLocked of cmd/blades/internal/cron/service.go: the file of the jobs. The file
-- system, the codecs and the test for a blank file are parameters.
use blades.Common.{
  ℕ, String, Bool, not, ◌==◌, List, [], Option, none, some, Result, err, ok, if◌then◌else◌,
}
use blades.Cli.Files.{Read, found, missing, unreadable}
use blades.Cli.Cron.{Job}

pub record Store : Type 0 where
  pub version : ℕ
  pub jobs : List Job

abbrev pub no_store : Store
no_store = record { version = 0; jobs = [] }

abbrev pub fresh_store : Store
fresh_store = record { version = 1; jobs = [] }

-- The operations of the package os on the path of the store, and on a temporary file beside it,
-- which has a name. A decoder changes the value that it is given even where it fails.
pub record StoreFiles (D B : Type 0) : Type 0 where
  pub stat : D → Option ℕ
  pub read_file : D → Read B
  pub mkdir_all : D → D × Option String
  pub create_temp : D → D × Result String String
  pub write_temp : D → String → B → D × Option String
  pub close_temp : D → String → D × Option String
  pub rename : D → String → D × Option String
  pub remove : D → String → D
  pub is_blank : B → Bool
  pub unmarshal : B → Store → Store × Bool
  pub fallback : B → Store → Store × Bool
  pub encode : Store → Option B

-- The fields of `Service` that the operations change. `timer` has the delay of the timer that is
-- set; a nil map of identifiers is `none`.
pub record Service : Type 0 where
  pub st : Store
  pub last_mtime : ℕ
  pub known_ids : Option (List (String × Unit {0}))
  pub timer : Option ℕ
  pub watching : Bool
  pub running : Bool

module _ {D B : Type 0} (files : StoreFiles D B) where
  -- `decodeStore`: the other format is tried on what the first has left.
  unfoldable pub decode_store : B → Option Store
  decode_store bytes =
      let (st, done) = files.unmarshal bytes no_store in
      let (other, done_too) = files.fallback bytes st in
      if done then some st else (if done_too then some other else none)

  -- A change of the file's time since the last load or save.
  abbrev pub forget : Option ℕ → Service → Service
  forget none s = s
  forget (some mtime) s =
      if mtime == s.last_mtime then s else record s { st = no_store; last_mtime = mtime }

  abbrev pub with_version : Store → Store
  with_version st = if st.version == 0 then record st { version = 1 } else st

  abbrev pub decoded : Option Store → Store
  decoded none = fresh_store
  decoded (some st) = with_version st

  abbrev pub with_store : Service → Store → Service
  with_store s st = record s { st = st }

  unfoldable pub load_bytes : Read B → Service → Service × Option String
  unfolding decode_store
  load_bytes missing s = (with_store s fresh_store, none)
  load_bytes (unreadable error) s = (s, some error)
  load_bytes (found bytes) s =
      if files.is_blank bytes
      then (with_store s fresh_store, none)
      else (with_store s (decoded (decode_store bytes)), none)

  -- `loadLocked`
  unfoldable pub load_locked : D → Service → Service × Option String
  unfolding load_bytes
  load_locked d s =
      let s' = forget (files.stat d) s in
      if not (s'.st.version == 0) then (s', none) else load_bytes (files.read_file d) s'

  -- The last steps of `saveLocked`: a failed step removes the temporary file.
  abbrev pub after_rename : String → Service → D × Option String → D × Service × Option String
  after_rename name s (d, some error) = (files.remove d name, s, some error)
  after_rename name s (d, none) = elim (files.stat d) [
    | none ↦ (d, s, none)
    | some mtime ↦ (d, record s { last_mtime = mtime }, none)
  ]

  abbrev pub after_close : String → Service → D × Option String → D × Service × Option String
  after_close name s (d, some error) = (files.remove d name, s, some error)
  after_close name s (d, none) = after_rename name s (files.rename d name)

  abbrev pub after_write : String → Service → D × Option String → D × Service × Option String
  after_write name s (d, some error) =
      (files.remove (files.close_temp d name).0 name, s, some error)
  after_write name s (d, none) = after_close name s (files.close_temp d name)

  abbrev pub after_create : B → Service → D × Result String String → D × Service × Option String
  after_create bytes s (d, err error) = (d, s, some error)
  after_create bytes s (d, ok name) = after_write name s (files.write_temp d name bytes)

  abbrev pub encoding_failed : String
  encoding_failed = "encode"

  abbrev pub after_encode : Option B → Service → D → D × Service × Option String
  after_encode none s d = (d, s, some encoding_failed)
  after_encode (some bytes) s d = after_create bytes s (files.create_temp d)

  abbrev pub after_mkdir : Service → D × Option String → D × Service × Option String
  after_mkdir s (d, some error) = (d, s, some error)
  after_mkdir s (d, none) = after_encode (files.encode s.st) s d

  -- `saveLocked`
  unfoldable pub save_locked : D → Service → D × Service × Option String
  save_locked d s = after_mkdir s (files.mkdir_all d)
