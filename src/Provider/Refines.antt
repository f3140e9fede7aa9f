-- ===== src/Provider/Refines.antt =====
-- The session store in a database keeps what the manager relies on of a session store
-- (Resumable/Contract), whatever statements fail.
use divine_upload_server.Prelude.{
  ℕ, ◌+◌, ◌≡◌, refl, sym, ap, subst, ◌∙◌, ◌⊎◌, inl, inr, not, Option, none, some, ◌==◌, leb,
  Bool-cases,
}
use divine_upload_server.Query.{first}
use divine_upload_server.Result.{Result, ok, err, refuse_if, ok-injective, not_refused}
use divine_upload_server.Exec.{Exec, pure, lift, ◌>>=◌}
use divine_upload_server.Exec.Meets.{Meets, Holds, Meets-bind, Meets-pure, Meets-lift, Meets-if}
use divine_upload_server.Exec.Success.{
  Succeeds, bind-Succeeds, lift-Succeeds, pure-Succeeds, last-Succeeds, taken, lifted_world,
  checked_world,
}
use divine_upload_server.Text.{Text, text, str_eq}
use divine_upload_server.Text.Laws.{str_eq_iff}
use divine_upload_server.Text.Signed.{max_i64}
use divine_upload_server.Resumable.Data.{UploadSession}
use divine_upload_server.Resumable.Traits.{Failure, other, session_busy, SessionStore}
use divine_upload_server.Resumable.Contract.{Sessions, StoreLaws}
use divine_upload_server.Provider.Tables.{
  Coordination, SessionRow, find_session, is_deleted, Database, statement, reading,
}
use divine_upload_server.Provider.Rows.{
  write_session-stale, seen, seen-keyed, answer, write-Written, bury-seen, bury-gone,
}
use divine_upload_server.Provider.Store.{
  Locks, ProviderSessionStore, with_revision, write_session, bury, load_legacy, load_row, load,
  save_row, save, delete, lock, unlock, session_store,
}

-- What a session store in a database does beyond the laws that the manager relies on: a save that
-- succeeds stores the next revision, and after a delete that succeeds there is no session.
pub record RevisionLaws {W : Type 0} (store : SessionStore W) (at : Sessions W) : Type 0 where
  pub save_next :
      (s : UploadSession) (w : W)
      → Succeeds (store.save s) w tt
      → at (store.save s w).1 s.upload_id ≡ some (record s { revision = s.revision + 1 })
  pub delete_gone :
      (gone : Text) (w : W)
      → Succeeds (store.delete gone) w tt
      → at (store.delete gone w).1 gone ≡ none

module _ {W : Type 0} (db : Database W) (at_legacy : Sessions W) where
  abbrev pub view : Sessions W
  view w id = seen id (db.tables w) (at_legacy w id)

  -- Two worlds that a reader of the sessions cannot tell apart.
  abbrev pub Same : W → W → Type 0
  Same w v = (db.tables v ≡ db.tables w) × ((id : Text) → at_legacy v id ≡ at_legacy w id)

  -- What is relied on of the database: what is set is there, and what fails changes nothing.
  pub record DatabaseLaws : Type 0 where
    pub tables_set : (t : Coordination) (w : W) → db.tables (db.set t w) ≡ t
    pub legacy_set :
        (t : Coordination) (w : W) (id : Text) → at_legacy (db.set t w) id ≡ at_legacy w id
    pub available_same : (w : W) → Same w (db.available w).1

  -- What is relied on of the older store: it is only read here.
  pub record LegacyLaws (legacy : SessionStore W) : Type 0 where
    pub load_reads :
        (id : Text) (w : W) (o : Option UploadSession)
        → (legacy.load id w).0 ≡ ok o
        → at_legacy w id ≡ o
    pub load_same : (id : Text) (w : W) → Same w (legacy.load id w).1

  abbrev pub OptionLegacyLaws : Option (SessionStore W) → Type 0
  OptionLegacyLaws none = (w : W) (id : Text) → at_legacy w id ≡ none
  OptionLegacyLaws (some legacy) = LegacyLaws legacy

  pub record LocksLaws (locks : Locks W) : Type 0 where
    pub try_same : (id : Text) (w : W) → Same w (locks.try_lock id w).1
    pub unlock_same : (id : Text) (w : W) → Same w (locks.unlock id w)

  abbrev pub OptionLocksLaws : Option (Locks W) → Type 0
  OptionLocksLaws none = Unit
  OptionLocksLaws (some locks) = LocksLaws locks

  view-Same : (w v : W) → Same w v → (id : Text) → view v id ≡ view w id
  view-Same w v (tables, legacy) id =
      ap (λ t. seen id t (at_legacy v id)) tables ∙ ap (seen id (db.tables w)) (legacy id)

  Same-joined : (w v u : W) → Same w v → Same v u → Same w u
  Same-joined w v u (a, b) (c, d) = (c ∙ a, λ id. d id ∙ b id)

  module _ (laws : DatabaseLaws) {A : Type 0} (message : Text)
      (f : Coordination → A × Coordination) where
    -- A statement fails and changes nothing, or answers from the tables and leaves its own.
    statement_cases :
        (w : W)
        → ((e : Failure) × ((statement db message f w).0 ≡ err e)
            × Same w (statement db message f w).1)
          ⊎ (((statement db message f w).0 ≡ ok (f (db.tables w)).0)
              × (db.tables (statement db message f w).1 ≡ (f (db.tables w)).1)
              × ((id : Text) → at_legacy (statement db message f w).1 id ≡ at_legacy w id))
    unfolding statement
    statement_cases w =
        let same = laws.available_same w in
        elim (Bool-cases (db.available w).0) [
          | inl up ↦ rw up (
              inr (
                ap (λ t. ok (f t).0) same.0,
                laws.tables_set _ _ ∙ ap (λ t. (f t).1) same.0,
                λ id. laws.legacy_set _ _ id ∙ same.1 id,
              ))
          | inr down ↦ rw down (inl (other message, refl, same))
        ]

    -- A statement that answers.
    statement-Succeeds :
        (w : W) (a : A)
        → Succeeds (statement db message f) w a
        → ((f (db.tables w)).0 ≡ a)
          × (db.tables (statement db message f w).1 ≡ (f (db.tables w)).1)
          × ((id : Text) → at_legacy (statement db message f w).1 id ≡ at_legacy w id)
    statement-Succeeds w a h = elim (statement_cases w) [
      | inl (e, failed, _) ↦ cc (sym failed ∙ h)
      | inr (answered, tables, legacy) ↦ (ok-injective _ _ (sym answered ∙ h), tables, legacy)
    ]

  anything : {E A : Type 0} (r : Result E A) → Holds (λ _. Unit) r
  anything (ok a) = tt
  anything (err e) = tt

  module _ (laws : DatabaseLaws) {A : Type 0} (message : Text) (f : Coordination → A) (w0 : W) where
    query-Meets : Meets (Same w0) (λ _. Unit) (statement db message (reading f))
    query-Meets = record {
      at = λ w same. (
        elim (statement_cases laws message (reading f) w) [
          | inl (e, _, here) ↦ Same-joined w0 w _ same here
          | inr (_, tables, legacy) ↦ Same-joined w0 w _ same (tables, legacy)
        ],
        anything _,
      );
    }

  lock-Meets :
      (locks : Option (Locks W)) (legacy : Option (SessionStore W))
      → OptionLocksLaws locks
      → (w0 : W) (id : Text)
      → Meets
          (Same w0)
          (λ _. Unit)
          (lock (record { database = some db; locks = locks; legacy = legacy }) id)
  unfolding lock
  lock-Meets none legacy laws w0 id = Meets-pure tt tt
  lock-Meets (some locks) legacy laws w0 id =
      Meets-bind {Q = λ _. Unit}
        (record { at = λ w same. (Same-joined w0 w _ same (laws.try_same id w), anything _) })
        (λ locked _. Meets-lift (refuse_if (not locked) session_busy) (anything _))

  load_legacy-Meets :
      (locks : Option (Locks W)) (legacy : Option (SessionStore W))
      → OptionLegacyLaws legacy
      → (w0 : W) (id : Text)
      → Meets
          (Same w0)
          (λ _. Unit)
          (load_legacy (record { database = some db; locks = locks; legacy = legacy }) id)
  unfolding load_legacy
  load_legacy-Meets locks none laws w0 id = Meets-pure none tt
  load_legacy-Meets locks (some legacy) laws w0 id = record {
    at = λ w same. (Same-joined w0 w _ same (laws.load_same id w), anything _);
  }

  load_legacy-reads :
      (locks : Option (Locks W)) (legacy : Option (SessionStore W))
      → OptionLegacyLaws legacy
      → (id : Text) (w : W) (o : Option UploadSession)
      → Succeeds
          (load_legacy (record { database = some db; locks = locks; legacy = legacy }) id)
          w
          o
      → at_legacy w id ≡ o
  unfolding load_legacy
  load_legacy-reads locks none laws id w o h = laws w id ∙ pure-Succeeds none w o h
  load_legacy-reads locks (some legacy) laws id w o h = laws.load_reads id w o h

  module _ (laws : DatabaseLaws) (locks : Option (Locks W)) (legacy : Option (SessionStore W))
      (locks_laws : OptionLocksLaws locks) (legacy_laws : OptionLegacyLaws legacy) where
    abbrev pub provider : ProviderSessionStore W
    provider = record { database = some db; locks = locks; legacy = legacy }

    row-Meets :
        (w0 : W) (id : Text) (o : Option SessionRow)
        → Meets
            (Same w0)
            (λ _. Unit)
            (elim o [
              | some row ↦ pure {E = Failure} (some (with_revision row))
              | none ↦ load_legacy provider id
            ])
    row-Meets w0 id none = load_legacy-Meets locks legacy legacy_laws w0 id
    row-Meets w0 id (some row) = Meets-pure (some (with_revision row)) tt

    load-Meets : (w0 : W) (id : Text) → Meets (Same w0) (λ _. Unit) (load provider id)
    unfolding load load_row
    load-Meets w0 id =
        Meets-bind (query-Meets laws (text "Session deletion lookup failed") (is_deleted id) w0)
          λ deleted _.
            Meets-if deleted (λ _. Meets-pure none tt)
              λ _.
                Meets-bind
                  (query-Meets laws (text "Session lookup failed") (λ t. find_session id t.sessions)
                    w0)
                  λ row _. row-Meets w0 id row

    row-reads :
        (id : Text) (row : Option SessionRow) (w : W) (o : Option UploadSession)
        → Succeeds
            (elim row [
              | some row ↦ pure {E = Failure} (some (with_revision row))
              | none ↦ load_legacy provider id
            ])
            w
            o
        → answer (at_legacy w id) row ≡ o
    row-reads id none w o h = load_legacy-reads locks legacy legacy_laws id w o h
    row-reads id (some row) w o h = pure-Succeeds (some (with_revision row)) w o h

    -- After the tombstones were read.
    live-reads :
        (id : Text) (v : W) (o : Option UploadSession)
        → Succeeds (load_row provider db id) v o
        → answer (at_legacy v id) (find_session id (db.tables v).sessions) ≡ o
    unfolding load_row
    live-reads id v o h =
        let (row, asked, rest, _) = bind-Succeeds _ _ v o h in
        let (is, _, old) =
          statement-Succeeds laws (text "Session lookup failed")
            (reading (λ t. find_session id t.sessions)) v row asked in
        ap (answer (at_legacy v id)) is
        ∙ ap (λ x. answer x row) (sym (old id))
        ∙ row-reads id row _ o rest

    load-reads :
        (id : Text) (w : W) (o : Option UploadSession)
        → Succeeds (load provider id) w o
        → view w id ≡ o
    unfolding load
    load-reads id w o h =
        let (deleted, asked, rest, _) = bind-Succeeds _ _ w o h in
        let (is, tables, old) =
          statement-Succeeds laws (text "Session deletion lookup failed") (reading (is_deleted id))
            w deleted asked in
        elim (taken deleted _ _ _ o rest) [
          | inl (gone, done) ↦ rw (is ∙ gone) (pure-Succeeds none _ o done)
          | inr (live, found) ↦ rw (is ∙ live) (
              sym (ap (λ t. answer (at_legacy w id) (find_session id t.sessions)) tables)
              ∙ sym (
                  ap
                    (λ x. answer x (
                      find_session id
                        (db.tables
                          (statement db (text "Session deletion lookup failed")
                            (reading (is_deleted id)) w).1).sessions))
                    (old id))
              ∙ live-reads id _ o found)
        ]

    -- After a write, reached or not.
    Saved : UploadSession → W → W → Type 0
    Saved s w v =
        Same w v
        ⊎ ((db.tables v ≡ (write_session s (db.tables w)).1)
            × ((id : Text) → at_legacy v id ≡ at_legacy w id))

    Saved-view :
        (s : UploadSession) (w v : W) (id : Text)
        → Saved s w v
        → (view v id ≡ view w id)
          ⊎ ((id ≡ s.upload_id) × ((r : ℕ) × (view v id ≡ some (record s { revision = r }))))
    unfolding Saved
    Saved-view s w v id (inl same) = inl (view-Same w v same id)
    Saved-view s w v id (inr (tables, old)) =
        let here : view v id ≡ seen id (write_session s (db.tables w)).1 (at_legacy w id) =
          ap (λ t. seen id t (at_legacy v id)) tables
          ∙ ap (seen id (write_session s (db.tables w)).1) (old id) in
        elim (write-Written s (db.tables w)) [
          | inl (_, unchanged) ↦ inl (here ∙ ap (λ t. seen id t (at_legacy w id)) unchanged)
          | inr (_, its, others) ↦ elim (Bool-cases (str_eq s.upload_id id)) [
            | inl hit ↦
                let same = (str_eq_iff s.upload_id id).0 hit in
                inr (
                  sym same,
                  (
                    s.revision + 1,
                    here
                        ∙ subst
                            (λ x.
                              seen x (write_session s (db.tables w)).1 (at_legacy w id)
                              ≡ some (record s { revision = s.revision + 1 }))
                            same (its (at_legacy w id)),
                  ),
                )
            | inr apart ↦ inl (here ∙ others id (at_legacy w id) apart)
          ]
        ]

    write : UploadSession → Exec W Failure ℕ
    write s = statement db (text "Session persistence failed") (write_session s)

    write-Saved : (s : UploadSession) (w : W) → Saved s w (write s w).1
    unfolding write Saved
    write-Saved s w =
        elim (statement_cases laws (text "Session persistence failed") (write_session s) w) [
          | inl (e, _, same) ↦ inl same
          | inr (_, tables, old) ↦ inr (tables, old)
        ]

    abbrev concurrent : Failure
    concurrent = other (text "Session changed concurrently; retry")

    abbrev written_or : ℕ → Result Failure Unit
    written_or changed = refuse_if (not (changed == 1)) concurrent

    abbrev bounded_revision : UploadSession → Result Failure Unit
    bounded_revision s =
        refuse_if (leb max_i64 s.revision) (other (text "Session revision exhausted"))

    save-Saved : (s : UploadSession) (w : W) → Saved s w (save provider s w).1
    unfolding save save_row Saved write
    save-Saved s w =
        elim (checked_world (bounded_revision s)
          (λ _. write s >>= λ changed. lift (written_or changed)) w) [
            | inl e ↦ inl (ap db.tables e, λ id. ap (λ v. at_legacy v id) e)
            | inr (_, e) ↦
                subst (Saved s w) (sym (e ∙ lifted_world (write s) written_or w)) (write-Saved s w)
          ]

    save-written :
        (s : UploadSession) (w : W)
        → Succeeds (save provider s) w tt
        → (db.tables (save provider s w).1 ≡ (write_session s (db.tables w)).1)
          × ((id : Text) → at_legacy (save provider s w).1 id ≡ at_legacy w id)
          × ((write_session s (db.tables w)).0 ≡ 1)
    unfolding save save_row write
    save-written s w h =
        let (_, _, h1, same) = lift-Succeeds (bounded_revision s) _ w tt h in
        let (changed, reached, h2, same') = bind-Succeeds (write s) _ w tt h1 in
        let (is, tables, old) =
          statement-Succeeds laws (text "Session persistence failed") (write_session s) w changed
            reached in
        let world = same ∙ lifted_world (write s) written_or w in
        (
          ap db.tables world ∙ tables,
          λ id. ap (λ v. at_legacy v id) world ∙ old id,
          is ∙ not_refused changed 1 concurrent (last-Succeeds (written_or changed) _ tt h2),
        )

    save-stored :
        (s : UploadSession) (w : W)
        → Succeeds (save provider s) w tt
        → view (save provider s w).1 s.upload_id ≡ some (record s { revision = s.revision + 1 })
    save-stored s w h =
        let (tables, old, once) = save-written s w h in
        elim (write-Written s (db.tables w)) [
          | inl (zero_rows, _) ↦ cc (sym zero_rows ∙ once)
          | inr (_, its, _) ↦
              ap (λ t. seen s.upload_id t (at_legacy (save provider s w).1 s.upload_id)) tables
              ∙ its (at_legacy (save provider s w).1 s.upload_id)
        ]

    delete-removed :
        (gone : Text) (w : W)
        → Succeeds (delete provider gone) w tt
        → view (delete provider gone w).1 gone ≡ none
    unfolding delete
    delete-removed gone w h =
        let (_, tables, _) =
          statement-Succeeds laws (text "Session cleanup failed") (λ t. (tt, bury gone t)) w tt h in
        ap (λ t. seen gone t (at_legacy (delete provider gone w).1 gone)) tables
        ∙ bury-gone gone (db.tables w) (at_legacy (delete provider gone w).1 gone)

    delete-effect :
        (gone : Text) (w : W) (id : Text)
        → (view (delete provider gone w).1 id ≡ view w id)
          ⊎ ((id ≡ gone) × (view (delete provider gone w).1 id ≡ none))
    unfolding delete
    delete-effect gone w id =
        elim (statement_cases laws (text "Session cleanup failed") (λ t. (tt, bury gone t)) w) [
          | inl (e, _, same) ↦ inl (view-Same w _ same id)
          | inr (_, tables, old) ↦
              let here : view (delete provider gone w).1 id
                  ≡ seen id (bury gone (db.tables w)) (at_legacy w id) =
                ap (λ t. seen id t (at_legacy (delete provider gone w).1 id)) tables
                ∙ ap (seen id (bury gone (db.tables w))) (old id) in
              elim (bury-seen gone (db.tables w) id (at_legacy w id)) [
                | inl kept ↦ inl (here ∙ kept)
                | inr (same, removed) ↦ inr (same, here ∙ removed)
              ]
        ]

    unlock-Same :
        (locks' : Option (Locks W))
        → OptionLocksLaws locks'
        → (id : Text) (w : W) → Same w (unlock (record provider { locks = locks' }) id w)
    unfolding unlock
    unlock-Same none l id w = (refl, λ id. refl)
    unlock-Same (some locks') l id w = l.unlock_same id w

    view-keyed :
        ((w : W) (id : Text) (s : UploadSession) → at_legacy w id ≡ some s → s.upload_id ≡ id)
        → (w : W) (id : Text) (s : UploadSession) → view w id ≡ some s
        → s.upload_id ≡ id
    view-keyed keyed w id s h = seen-keyed id (db.tables w) (at_legacy w id) s (keyed w id s) h

    store_laws :
        ((w : W) (id : Text) (s : UploadSession) → at_legacy w id ≡ some s → s.upload_id ≡ id)
        → StoreLaws (session_store provider) view
    store_laws keyed = record {
      lock_quiet = λ id w.
          view-Same w _ ((lock-Meets locks legacy locks_laws w id).at w (refl, λ i. refl)).0;
      unlock_quiet = λ id w. view-Same w _ (unlock-Same locks locks_laws id w);
      load_quiet = λ id w. view-Same w _ ((load-Meets w id).at w (refl, λ i. refl)).0;
      load_reads = load-reads;
      keyed = view-keyed keyed;
      save_effect = λ s w id. Saved-view s w _ id (save-Saved s w);
      save_done = λ s w h. (s.revision + 1, save-stored s w h);
      delete_effect = delete-effect;
    }

    -- The session store in a database keeps every law that the manager relies on: a read answers what
    -- is stored, a call that fails changes the session it names or nothing, and no call touches another
    -- session. Beyond these laws, a save that succeeds stores the session with the next revision, and
    -- after a delete that succeeds there is no session. The tables are read back as they were set, a
    -- statement that fails changes nothing, and the older store, which is read where the tables have no
    -- session, is only read.
    pub session_store-StoreLaws :
        ((w : W) (id : Text) (s : UploadSession) → at_legacy w id ≡ some s → s.upload_id ≡ id)
        → StoreLaws (session_store provider) view × RevisionLaws (session_store provider) view
    session_store-StoreLaws keyed =
        (store_laws keyed, record { save_next = save-stored; delete_gone = delete-removed })

    -- Of two saves of one session from one revision, the second fails: after a save that succeeded, no
    -- save of that session with the revision that was saved succeeds.
    pub save-save-Conflicts :
        (s stale : UploadSession) (w : W)
        → stale.upload_id ≡ s.upload_id
        → stale.revision ≡ s.revision
        → Succeeds (save provider s) w tt
        → ¬ Succeeds (save provider stale) (save provider s w).1 tt
    save-save-Conflicts s stale w same_id same_revision first second =
        let (tables, _, once) = save-written s w first in
        let (_, _, again) = save-written stale (save provider s w).1 second in
        let after = (write_session s (db.tables w)).1 in
        elim (write-Written s (db.tables w)) [
          | inl (zero_rows, _) ↦ cc (sym zero_rows ∙ once)
          | inr (_, its, _) ↦
              let stored =
                subst (λ id. seen id after none ≡ some (record s { revision = s.revision + 1 }))
                  (sym same_id) (its none) in
              let stale_now =
                write_session-stale stale (record s { revision = s.revision + 1 }) after stored
                  (ap (λ r. r + 1) (sym same_revision)) in
              cc (sym stale_now ∙ sym (ap (λ t. (write_session stale t).0) tables) ∙ again)
        ]
