-- ===== src/Cli/Session.antt =====
-- cmd/blades/internal/session/session.go: sessions that are kept in memory and in files. A time is
-- a number, and the zero time is 0. The only option of a session is its compressor, which is an
-- argument where a history is read. A session is passed as a value; the random identifier of a new
-- base session and the time are arguments.
use blades.Common.{
  ℕ, String, str_eq, Bool, true, false, ◌==◌, not, ltb, List, [], ◌∷◌, ◌++◌, Option, none, some,
  Result, err, ok, if◌then◌else◌,
}
use blades.Common.StringMap.{insert, lookup, delete}
use blades.Message.{Any, Message}
use blades.Context.Session as Base
use blades.Context.Session.{ContextCompressor, new_session, set_state, append, history}
use blades.Cli.Files.{
  Read, found, missing, unreadable, Removed, removed, was_missing, remove_failed, Files, Codec,
}
use blades.Cli.Persistence.{PersistedMessage, make_persisted_history, restore_history}
use Prim.Native.String as Native
pub mod Laws

pub record PersistedSession : Type 0 where
  pub id : String
  pub created_at : ℕ
  pub last_access_at : ℕ
  pub state : List (String × Any)
  pub history : List PersistedMessage

pub record ManagedSession : Type 0 where
  pub id : String
  pub base : Base.Session
  pub raw_history : List Message

-- The errors of the package.
pub data SessionError : Type 0 where
  mkdir_failed read_failed write_failed remove_error history_failed : String → SessionError
  marshal_failed unmarshal_failed : SessionError
  unknown_part : String → SessionError

-- `managedSession.SetState` and `managedSession.Append`
unfoldable pub store_state : String → Any → ManagedSession → ManagedSession
store_state key value s = record s { base = set_state key value s.base }

unfoldable pub append_message : Message → ManagedSession → ManagedSession
append_message message s = record s {
  base = append message s.base;
  raw_history = s.raw_history ++ message ∷ [];
}

-- The two loops of `newManagedSession`.
unfoldable pub seed_state : List (String × Any) → Base.Session → Base.Session
seed_state [] base = base
seed_state ((key, value) ∷ state) base = seed_state state (set_state key value base)

unfoldable pub seed_history : List Message → Base.Session → Base.Session
seed_history [] base = base
seed_history (message ∷ messages) base = seed_history messages (append message base)

unfoldable pub new_managed_session :
    String → String → List (String × Any) → List Message → ManagedSession
unfolding seed_state seed_history new_session
new_managed_session base_id id state messages = record {
  id = id;
  base = seed_history messages (seed_state state (new_session base_id []));
  raw_history = messages;
}

-- A session that the manager made, or another.
pub data AnySession : Type 0 where
  managed : ManagedSession → AnySession
  plain : Base.Session → AnySession

abbrev pub session_id : AnySession → String
session_id (managed s) = s.id
session_id (plain s) = s.id

abbrev pub session_state : AnySession → List (String × Any)
session_state (managed s) = s.base.state
session_state (plain s) = s.state

unfoldable pub history_for_persistence :
    Option ContextCompressor → AnySession → Result SessionError (List Message)
unfolding history
history_for_persistence compressor (managed s) = ok s.raw_history
history_for_persistence compressor (plain s) = elim (history compressor s) [
  | err error ↦ err (history_failed error)
  | ok (_, messages) ↦ ok messages
]

-- `Manager`; the sessions in memory by their identifier.
pub record Manager : Type 0 where
  pub dir : String
  pub sessions : List (String × ManagedSession)

module _ {D B : Type 0} (files : Files D B) (codec : Codec PersistedSession B) where
  abbrev pub session_path : String → String → String
  session_path dir id = files.join dir (Native.◌++◌ id ".json")

  -- `loadFromDisk`; that there is no file is `none`.
  unfoldable pub load_from_disk :
      Manager → String → String → D → Result SessionError (Option ManagedSession)
  unfolding new_managed_session restore_history
  load_from_disk m base_id id d = elim (files.read_file d (session_path m.dir id)) [
    | missing ↦ ok none
    | unreadable error ↦ err (read_failed error)
    | found bytes ↦ elim (codec.unmarshal bytes) [
      | none ↦ err unmarshal_failed
      | some ps ↦ elim (restore_history ps.history) [
        | err type ↦ err (unknown_part type)
        | ok messages ↦ ok (some (new_managed_session base_id id ps.state messages))
      ]
    ]
  ]

  abbrev pub keep : String → ManagedSession → Manager → Manager
  keep id s m = record m { sessions = insert id s m.sessions }

  -- `Manager.Get`
  unfoldable pub get : String → String → D → Manager → Manager × Result SessionError ManagedSession
  unfolding load_from_disk
  get base_id id d m = elim (lookup id m.sessions) [
    | some s ↦ (m, ok s)
    | none ↦ elim (load_from_disk m base_id id d) [
      | err error ↦ (m, err error)
      | ok (some s) ↦ (keep id s m, ok s)
      | ok none ↦ let fresh = new_managed_session base_id id [] [] in (keep id fresh m, ok fresh)
    ]
  ]

  abbrev pub or_nil : Result SessionError ManagedSession → Option ManagedSession
  or_nil (ok s) = some s
  or_nil (err error) = none

  -- `Manager.GetOrNew`: nil where `Get` fails.
  unfoldable pub get_or_new : String → String → D → Manager → Manager × Option ManagedSession
  unfolding get
  get_or_new base_id id d m = let (m', result) = get base_id id d m in (m', or_nil result)

  -- `createdAt` of a file that is there.
  unfoldable pub existing_created_at : D → String → ℕ
  existing_created_at d path = elim (files.read_file d path) [
    | found bytes ↦ elim (codec.unmarshal bytes) [ some ps ↦ ps.created_at | none ↦ 0 ]
    | _ ↦ 0
  ]

  abbrev pub first_created : ℕ → ℕ → ℕ
  first_created created now = if created == 0 then now else created

  -- What `Save` writes.
  unfoldable pub to_persist : ℕ → D → String → AnySession → List Message → PersistedSession
  unfolding existing_created_at make_persisted_history
  to_persist now d path s messages = record {
    id = session_id s;
    created_at = first_created (existing_created_at d path) now;
    last_access_at = now;
    state = session_state s;
    history = make_persisted_history messages;
  }

  abbrev pub written : Option String → Result SessionError (Unit {0})
  written none = ok tt
  written (some error) = err (write_failed error)

  unfoldable pub write_session : D → String → PersistedSession → D × Result SessionError (Unit {0})
  write_session d path ps = elim (codec.marshal ps) [
    | none ↦ (d, err marshal_failed)
    | some bytes ↦ let (d', error) = files.write_file d path bytes in (d', written error)
  ]

  -- `Save`, after its call of `os.MkdirAll`.
  unfoldable pub save_into :
      Option String
      → ℕ
      → Option ContextCompressor
      → String
      → AnySession
      → D
      → D × Result SessionError (Unit {0})
  unfolding history_for_persistence to_persist write_session
  save_into (some error) now compressor dir s d = (d, err (mkdir_failed error))
  save_into none now compressor dir s d = elim (history_for_persistence compressor s) [
    | err error ↦ (d, err error)
    | ok messages ↦
        let path = session_path dir (session_id s) in
        write_session d path (to_persist now d path s messages)
  ]

  -- `Manager.Save`
  unfoldable pub save :
      ℕ → Option ContextCompressor → Manager → AnySession → D → D × Result SessionError (Unit {0})
  unfolding save_into
  save now compressor m s d =
      if str_eq m.dir ""
      then (d, ok tt)
      else let (d', error) = files.mkdir_all d m.dir in save_into error now compressor m.dir s d'

  abbrev pub removal : Removed → Result SessionError (Unit {0})
  removal removed = ok tt
  removal was_missing = ok tt
  removal (remove_failed error) = err (remove_error error)

  -- `Manager.Delete`
  unfoldable pub remove_session :
      String → D → Manager → D × Manager × Result SessionError (Unit {0})
  remove_session id d m =
      if str_eq m.dir ""
      then (d, m, ok tt)
      else let (d', result) = files.remove d (session_path m.dir id) in
        (d', record m { sessions = delete id m.sessions }, removal result)
