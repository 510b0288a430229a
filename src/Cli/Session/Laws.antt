-- ===== src/Cli/Session/Laws.antt =====
-- What is saved is what is loaded.
use blades.Common.{
  ℕ, String, str_eq, ◌≡◌, ◌≢◌, refl, sym, ap, ◌∙◌, subst, inl, inr, Bool-cases, List, [], ◌∷◌, ◌++◌,
  Option, none, some, Result, err, ok, arith, append_assoc, append-nil, eq_iff,
}
use blades.Common.StringMap.{IsMap, lookup, delete, lookup-insert, lookup-delete, has_key-lookup}
use blades.Message.{Any, Part, text_part, file_part, data_part, tool_part, Message}
use blades.Context.Session as Base
use blades.Context.Session.{ContextCompressor, new_session, set_state, append}
use blades.Cli.Files.{
  found, missing, Removed, removed, was_missing, remove_failed, Files, IsFiles, Codec, Reads,
}
use blades.Cli.Persistence.{
  make_persisted_part, make_persisted_parts, make_persisted_history, restore_part, restore_parts,
  restore_history,
}
use blades.Cli.Session.{
  PersistedSession, ManagedSession, SessionError, managed, Manager, session_path,
  new_managed_session, seed_state, seed_history, load_from_disk, get, save, to_persist, save_into,
  write_session, written, removal, remove_session, history_for_persistence, marshal_failed,
  existing_created_at, first_created,
}

restore_part-make_persisted_part : (part : Part) → restore_part (make_persisted_part part) ≡ ok part
unfolding restore_part
restore_part-make_persisted_part (text_part text) = refl
restore_part-make_persisted_part (file_part v) = refl
restore_part-make_persisted_part (data_part v) = refl
restore_part-make_persisted_part (tool_part v) = refl

restore_parts-make_persisted_parts :
    (parts : List Part) → restore_parts (make_persisted_parts parts) ≡ ok parts
unfolding restore_parts make_persisted_parts
restore_parts-make_persisted_parts [] = refl
restore_parts-make_persisted_parts (part ∷ parts) =
    rw
      (
        restore_parts,
        restore_part-make_persisted_part part,
        restore_parts-make_persisted_parts parts,
      )
      refl

-- A history that is put into the form of the file is restored as it was.
pub restore_history-make_persisted_history :
    (messages : List Message) → restore_history (make_persisted_history messages) ≡ ok messages
unfolding restore_history make_persisted_history
restore_history-make_persisted_history [] = refl
restore_history-make_persisted_history (message ∷ messages) =
    rw
      (
        restore_history,
        restore_parts-make_persisted_parts message.parts,
        restore_history-make_persisted_history messages,
      )
      refl

seed_state-lookup :
    (key : String) (state : List (String × Any)) (base : Base.Session)
    → IsMap state
    → lookup key (seed_state state base).state
      ≡ elim (lookup key state) [ some value ↦ some value | none ↦ lookup key base.state ]
unfolding seed_state set_state lookup
seed_state-lookup key [] base h = refl
seed_state-lookup key ((name, value) ∷ state) base (new, h) = ground (
  arith,
  seed_state-lookup key state (set_state name value base) h,
  lookup-insert name key value base.state,
  has_key-lookup name state new,
  eq_iff name key,
)

seed_state-history :
    (state : List (String × Any)) (base : Base.Session)
    → (seed_state state base).history ≡ base.history
unfolding seed_state set_state
seed_state-history [] base = refl
seed_state-history ((name, value) ∷ state) base =
    seed_state-history state (set_state name value base)

seed_history-history :
    (messages : List Message) (base : Base.Session)
    → (seed_history messages base).history ≡ base.history ++ messages
unfolding seed_history append
seed_history-history [] base = sym (append-nil base.history)
seed_history-history (m ∷ messages) base =
    seed_history-history messages (append m base) ∙ append_assoc base.history (m ∷ []) messages

seed_history-state :
    (messages : List Message) (base : Base.Session)
    → (seed_history messages base).state ≡ base.state
unfolding seed_history append
seed_history-state [] base = refl
seed_history-state (m ∷ messages) base = seed_history-state messages (append m base)

-- The copy has the identifier, the messages and, for each key, the value of the state.
pub record IsCopy (s copy : ManagedSession) : Type 0 where
  pub same_id : copy.id ≡ s.id
  pub same_raw : copy.raw_history ≡ s.raw_history
  pub same_history : copy.base.history ≡ s.raw_history
  pub same_state : (key : String) → lookup key copy.base.state ≡ lookup key s.base.state

new_managed_session-IsCopy :
    (base_id : String) (s : ManagedSession)
    → IsMap s.base.state
    → IsCopy s (new_managed_session base_id s.id s.base.state s.raw_history)
unfolding new_managed_session new_session lookup
new_managed_session-IsCopy base_id s h =
    let filled = seed_state s.base.state (new_session base_id []) in
    record {
      same_id = refl;
      same_raw = refl;
      same_history =
          seed_history-history s.raw_history filled
          ∙ ap (λ l. l ++ s.raw_history) (seed_state-history s.base.state (new_session base_id []));
      same_state = λ key.
          ap (lookup key) (seed_history-state s.raw_history filled)
          ∙ seed_state-lookup key s.base.state (new_session base_id []) h
          ∙ found_or_none (lookup key s.base.state);
    }
  where
    found_or_none : (o : Option Any) → elim o [ some value ↦ some value | none ↦ none ] ≡ o
    found_or_none none = refl
    found_or_none (some value) = refl

module _ {D B : Type 0} (files : Files D B) (codec : Codec PersistedSession B) where
  -- What `Save` writes of a session of the manager.
  abbrev pub saved : ℕ → D → Manager → ManagedSession → PersistedSession
  saved now d m s =
      to_persist files codec now (files.mkdir_all d m.dir).0 (session_path files codec m.dir s.id)
        (managed s) s.raw_history

module _ {D B : Type 0} (files : Files D B) (codec : Codec PersistedSession B)
    (lawful : IsFiles files) where
  -- The file holds the session.
  record Holds (d : D) (path : String) (ps : PersistedSession) : Type 0 where
    bytes : B
    there : files.read_file d path ≡ found bytes
    read : codec.unmarshal bytes ≡ some ps

  abbrev after_writing : D × Option String → D × Result SessionError (Unit {0})
  after_writing (d, error) = (d, written files codec error)

  write_session-Holds :
      (d d' : D) (path : String) (ps : PersistedSession)
      → write_session files codec d path ps ≡ (d', ok tt)
      → Reads codec ps
      → Holds d' path ps
  unfolding write_session
  write_session-Holds d d' path ps wrote reads = by_marshal (codec.marshal ps) refl wrote
    where
      by_write :
          (bytes : B) (result : D × Option String)
          → files.write_file d path bytes ≡ result
          → codec.marshal ps ≡ some bytes
          → after_writing result ≡ (d', ok tt)
          → Holds d' path ps
      by_write bytes (d1, some error) eq marshalled wrote = absurd (cc)
      by_write bytes (d1, none) eq marshalled wrote = record {
        bytes = bytes;
        there =
            subst (λ e. files.read_file e path ≡ found bytes) (ap (λ r. r.0) wrote)
              (lawful.read-write d d1 path bytes eq);
        read = reads.unmarshal-marshal bytes marshalled;
      }

      by_marshal :
          (marshalled : Option B)
          → codec.marshal ps ≡ marshalled
          → elim marshalled as (λ _. D × Result SessionError (Unit {0})) [
            | none ↦ (d, err marshal_failed)
            | some bytes ↦
                let (d', error) = files.write_file d path bytes in (d', written files codec error)
          ]
            ≡ (d', ok tt)
          → Holds d' path ps
      by_marshal none eq wrote = absurd (cc)
      by_marshal (some bytes) eq wrote =
          by_write bytes (files.write_file d path bytes) refl eq wrote

  save-Holds :
      (now : ℕ) (compressor : Option ContextCompressor) (m : Manager) (s : ManagedSession)
      (d d' : D)
      → m.dir ≢ ""
      → save files codec now compressor m (managed s) d ≡ (d', ok tt)
      → Reads codec (saved files codec now d m s)
      → Holds d' (session_path files codec m.dir s.id) (saved files codec now d m s)
  unfolding save save_into history_for_persistence
  save-Holds now compressor m s d d' named did reads = elim (Bool-cases (str_eq m.dir "")) [
    | inl empty ↦ absurd (named ((eq_iff m.dir "").0 empty))
    | inr full ↦ by_mkdir (files.mkdir_all d m.dir).1 (rw full at did)
  ]
    where
      by_mkdir :
          (error : Option String)
          → save_into files codec error now compressor m.dir (managed s) (files.mkdir_all d m.dir).0
            ≡ (d', ok tt)
          → Holds d' (session_path files codec m.dir s.id) (saved files codec now d m s)
      by_mkdir (some error) did = absurd (cc)
      by_mkdir none did =
          write_session-Holds (files.mkdir_all d m.dir).0 d' (session_path files codec m.dir s.id)
            (saved files codec now d m s) did reads

  load_from_disk-Holds :
      (m m' : Manager) (base_id : String) (s : ManagedSession) (now : ℕ) (d d' : D)
      → m'.dir ≡ m.dir
      → Holds d' (session_path files codec m.dir s.id) (saved files codec now d m s)
      → load_from_disk files codec m' base_id s.id d'
        ≡ ok (some (new_managed_session base_id s.id s.base.state s.raw_history))
  unfolding load_from_disk to_persist
  load_from_disk-Holds m m' base_id s now d d' same_dir h =
      rw
        (
          load_from_disk,
          same_dir,
          h.there,
          h.read,
          restore_history-make_persisted_history s.raw_history,
        )
        refl

  -- A session that was saved, and is read by a manager which does not have it in memory, is
  -- returned with its identifier, its messages and its state, if the directory has a name and the
  -- codec reads what it has written of the session.
  pub get-save :
      (now : ℕ) (compressor : Option ContextCompressor) (m : Manager) (s : ManagedSession)
      (base_id : String) (d d' : D) (m' : Manager)
      → m.dir ≢ ""
      → save files codec now compressor m (managed s) d ≡ (d', ok tt)
      → Reads codec (saved files codec now d m s)
      → IsMap s.base.state
      → m'.dir ≡ m.dir
      → lookup s.id m'.sessions ≡ none
      → (copy : ManagedSession) × ((get files codec base_id s.id d' m').1 ≡ ok copy) × IsCopy s copy
  unfolding get
  get-save now compressor m s base_id d d' m' named did reads distinct same_dir new =
      let copy = new_managed_session base_id s.id s.base.state s.raw_history in
      (copy, rw (get, new, loaded) refl, new_managed_session-IsCopy base_id s distinct)
    where
      loaded :
          load_from_disk files codec m' base_id s.id d'
          ≡ ok (some (new_managed_session base_id s.id s.base.state s.raw_history))
      loaded =
          load_from_disk-Holds m m' base_id s now d d' same_dir
            (save-Holds now compressor m s d d' named did reads)

  existing_created_at-Holds :
      (d : D) (path : String) (ps : PersistedSession)
      → Holds d path ps
      → existing_created_at files codec d path ≡ ps.created_at
  unfolding existing_created_at
  existing_created_at-Holds d path ps h = rw (existing_created_at, h.there, h.read) refl

  -- After `Save` the file has the time of creation that it had, or the current time if it had none.
  pub save-existing_created_at :
      (now : ℕ) (compressor : Option ContextCompressor) (m : Manager) (s : ManagedSession)
      (d d' : D)
      → m.dir ≢ ""
      → save files codec now compressor m (managed s) d ≡ (d', ok tt)
      → Reads codec (saved files codec now d m s)
      → existing_created_at files codec d' (session_path files codec m.dir s.id)
        ≡ first_created files codec
            (existing_created_at files codec d (session_path files codec m.dir s.id))
            now
  unfolding to_persist existing_created_at
  save-existing_created_at now compressor m s d d' named did reads =
      existing_created_at-Holds d' (session_path files codec m.dir s.id)
        (saved files codec now d m s) (save-Holds now compressor m s d d' named did reads)
      ∙ rw
          (
            saved,
            to_persist,
            existing_created_at,
            lawful.read-mkdir d m.dir (session_path files codec m.dir s.id),
          )
          refl

  get-missing :
      (base_id id : String) (d : D) (m : Manager)
      → lookup id m.sessions ≡ none
      → files.read_file d (session_path files codec m.dir id) ≡ missing
      → (get files codec base_id id d m).1 ≡ ok (new_managed_session base_id id [] [])
  unfolding get load_from_disk
  get-missing base_id id d m new gone = rw (get, new, load_from_disk, gone) refl

  abbrev without : String → Manager → Manager
  without id m = record m { sessions = delete id m.sessions }

  abbrev after_remove :
      String → Manager → D × Removed → D × Manager × Result SessionError (Unit {0})
  after_remove id m (d, result) = (d, without id m, removal files codec result)

  -- After `Delete` has succeeded, `Get` returns a session without state and messages.
  pub get-remove_session :
      (id base_id : String) (d d' : D) (m m' : Manager)
      → m.dir ≢ ""
      → remove_session files codec id d m ≡ (d', m', ok tt)
      → (get files codec base_id id d' m').1 ≡ ok (new_managed_session base_id id [] [])
  unfolding remove_session
  get-remove_session id base_id d d' m m' named did = elim (Bool-cases (str_eq m.dir "")) [
    | inl empty ↦ absurd (named ((eq_iff m.dir "").0 empty))
    | inr full ↦ by_result (files.remove d path) refl (rw full at did)
  ]
    where
      path : String
      path = session_path files codec m.dir id

      forgotten : lookup id (delete id m.sessions) ≡ none
      forgotten = ground (arith, lookup-delete id id m.sessions, eq_iff id id)

      moved :
          (d1 : D)
          → files.read_file d1 path ≡ missing
          → ◌≡◌ {A = D × Manager} (d1, without id m) (d', m')
          → (get files codec base_id id d' m').1 ≡ ok (new_managed_session base_id id [] [])
      moved d1 gone same =
          subst
            (λ state.
              (get files codec base_id id state.0 state.1).1
              ≡ ok (new_managed_session base_id id [] []))
            same (get-missing base_id id d1 (without id m) forgotten gone)

      by_result :
          (result : D × Removed)
          → files.remove d path ≡ result
          → after_remove id m result ≡ (d', m', ok tt)
          → (get files codec base_id id d' m').1 ≡ ok (new_managed_session base_id id [] [])
      by_result (d1, removed) eq did =
          moved d1 (lawful.read-remove d d1 path eq) (ap (λ r. (r.0, r.1)) did)
      by_result (d1, was_missing) eq did =
          moved d1 (lawful.read-was_missing d d1 path eq) (ap (λ r. (r.0, r.1)) did)
      by_result (d1, remove_failed error) eq did = absurd (cc)
