-- ===== src/Cli/Witness.antt =====
-- The theorems on the command line program, at small inputs, and runs of it.
use Prim.Native.String as Native
use blades.Common.{
  String, eq_iff, ◌≡◌, ◌≢◌, refl, sym, ap, subst, false, List, [], ◌∷◌, Option, none, some, err, ok,
  arith,
}
use blades.Common.StringMap.{insert, lookup, delete, IsMap, has_key, lookup-insert, lookup-delete}
use blades.Message.{text_value, raw, user_message, new_message_parts}
use blades.Context.Session.{new_session, set_state, append}
use blades.Cli.Files.{Read, found, missing, removed, Files, IsFiles, Codec, Reads}
use blades.Cli.Persistence.{
  make_persisted_parts, make_persisted_history, restore_part, restore_parts, restore_history,
}
use blades.Cli.Session.{
  PersistedSession, ManagedSession, managed, Manager, store_state, append_message, seed_state,
  seed_history, new_managed_session, load_from_disk, get, existing_created_at, to_persist,
  write_session, save_into, save, remove_session, history_for_persistence, session_path,
  first_created,
}
use blades.Cli.Session.Laws.{IsCopy, saved, get-save, save-existing_created_at, get-remove_session}

program : Unit {0}
unfolding insert lookup delete has_key user_message new_message_parts new_session set_state append
    make_persisted_parts make_persisted_history restore_part restore_parts restore_history
    store_state append_message seed_state seed_history new_managed_session load_from_disk get
    existing_created_at to_persist write_session save_into save remove_session
    history_for_persistence
program = tt

-- A file system that holds sessions, and fails never.
abbrev Disk : Type 0
Disk = List (String × PersistedSession)

abbrev as_read : Option PersistedSession → Read PersistedSession
as_read (some ps) = found ps
as_read none = missing

abbrev in_memory : Files Disk PersistedSession
in_memory = record {
  read_file = λ d path. as_read (lookup path d);
  write_file = λ d path ps. (insert path ps d, none);
  remove = λ d path. (delete path d, removed);
  mkdir_all = λ d dir. (d, none);
  join = λ dir name. Native.◌++◌ dir (Native.◌++◌ "/" name);
  read_dir = λ d dir. missing;
}

abbrev identity : Codec PersistedSession PersistedSession
identity = record { marshal = λ ps. some ps; unmarshal = λ ps. some ps }

as_read-insert :
    (d d' : Disk) (path : String) (ps : PersistedSession)
    → insert path ps d ≡ d'
    → as_read (lookup path d') ≡ found ps
as_read-insert d d' path ps same =
    subst (λ e. as_read (lookup path e) ≡ found ps) same
      (ground (arith, lookup-insert path path ps d, eq_iff path path))

as_read-delete :
    (d d' : Disk) (path : String) → delete path d ≡ d' → as_read (lookup path d') ≡ missing
as_read-delete d d' path same =
    subst (λ e. as_read (lookup path e) ≡ missing) same
      (ground (arith, lookup-delete path path d, eq_iff path path))

in_memory-IsFiles : IsFiles in_memory
in_memory-IsFiles = record {
  read-write = λ d d' path ps same. as_read-insert d d' path ps (ap (λ r. r.0) same);
  read-mkdir = λ d dir path. refl;
  read-remove = λ d d' path same. as_read-delete d d' path (ap (λ r. r.0) same);
  read-was_missing = λ d d' path same. absurd (cc);
}

abbrev talk : ManagedSession
talk = record {
  id = "t";
  base = record {
    id = "b";
    state = ("mood", text_value "good") ∷ [];
    history = user_message "m" (raw "hello" ∷ []) ∷ [];
  };
  raw_history = user_message "m" (raw "hello" ∷ []) ∷ [];
}

abbrev empty_manager : Manager
empty_manager = record { dir = "sessions"; sessions = [] }

abbrev on_disk : Disk
on_disk = (save in_memory identity 7 none empty_manager (managed talk) []).0

named : empty_manager.dir ≢ ""
named same = absurd (cc)

did_save : save in_memory identity 7 none empty_manager (managed talk) [] ≡ (on_disk, ok tt)
unfolding program
did_save = refl

any-Reads : (ps : PersistedSession) → Reads identity ps
any-Reads ps = record { unmarshal-marshal = λ bytes same. sym same }

talk-IsMap : IsMap talk.base.state
unfolding has_key
talk-IsMap = (refl, tt)

get-save_example :
    (copy : ManagedSession) × ((get in_memory identity "c" "t" on_disk empty_manager).1 ≡ ok copy)
    × IsCopy talk copy
unfolding lookup
get-save_example =
    get-save in_memory identity in_memory-IsFiles 7 none empty_manager talk "c" [] on_disk
      empty_manager named did_save (any-Reads (saved in_memory identity 7 [] empty_manager talk))
      talk-IsMap refl refl

-- The second time the file is there.
abbrev saved_again : Disk
saved_again = (save in_memory identity 9 none empty_manager (managed talk) on_disk).0

did_save_again :
    save in_memory identity 9 none empty_manager (managed talk) on_disk ≡ (saved_again, ok tt)
unfolding program
did_save_again = refl

save_keeps_created_at :
    existing_created_at in_memory identity saved_again
      (session_path in_memory identity "sessions" "t")
    ≡ first_created in_memory identity
        (existing_created_at in_memory identity on_disk
          (session_path in_memory identity "sessions" "t"))
        9
save_keeps_created_at =
    save-existing_created_at in_memory identity in_memory-IsFiles 9 none empty_manager talk on_disk
      saved_again named did_save_again
      (any-Reads (saved in_memory identity 9 on_disk empty_manager talk))

created_at_first :
    existing_created_at in_memory identity saved_again
      (session_path in_memory identity "sessions" "t")
    ≡ 7
unfolding program
created_at_first = refl

did_remove :
    remove_session in_memory identity "t" on_disk empty_manager ≡ ([], empty_manager, ok tt)
unfolding program
did_remove = refl

get_remove_session_test :
    (get in_memory identity "c" "t" [] empty_manager).1 ≡ ok (new_managed_session "c" "t" [] [])
get_remove_session_test =
    get-remove_session in_memory identity in_memory-IsFiles "t" "c" on_disk [] empty_manager
      empty_manager named did_remove

-- A type that no part has.
unknown_type :
    restore_parts (
      record {
        type = "video";
        text = "";
        name = "";
        uri = "";
        mime_type = "";
        bytes = [];
        id = "";
        request = "";
        response = "";
        completed = false;
      }
      ∷ [])
    ≡ err "video"
unfolding program
unknown_type = refl
