-- ===== src/Provider/Rows.antt =====
-- What the statements of `ProviderSessionStore` (src/resumable_storage.rs) leave of each session.
use mathlib.Core.Option.{some-injective}
use divine_upload_server.Prelude.{
  ℕ, ◌+◌, ◌≡◌, refl, sym, ap, subst, ◌∙◌, ◌⊎◌, inl, inr, Bool, true, false, not, ◌&&◌, ◌||◌, Option,
  none, some, List, [], ◌∷◌, ◌++◌, ◌==◌, ==_false, map, if◌then◌else◌, any, Bool-cases, &&-true,
  arith,
}
use divine_upload_server.Query.Keyed.{
  placed, find-key, find-put-same, find-fresh, find-appended-other, find-put-other,
}
use divine_upload_server.Query.Laws.{first-filter, any-append}
use divine_upload_server.Text.{Text, str_eq}
use divine_upload_server.Text.Laws.{str_eq_iff, str_eq_refl}
use divine_upload_server.Resumable.Data.{UploadSession}
use divine_upload_server.Provider.Tables.{
  Coordination, SessionRow, session_key, find_session, is_deleted,
}
use divine_upload_server.Provider.Store.{
  with_revision, insert_session, update_session, write_session, bury,
}

-- The session that a row answers with.
abbrev pub answer : Option UploadSession → Option SessionRow → Option UploadSession
answer fallback none = fallback
answer fallback (some row) = some (with_revision row)

-- What a reader of the tables sees, with an older session behind them.
abbrev pub seen : Text → Coordination → Option UploadSession → Option UploadSession
seen id t fallback = if is_deleted id t then none else answer fallback (find_session id t.sessions)

not-true : (b : Bool) → not b ≡ true → b ≡ false
not-true b h = ground arith

-- What a write leaves: nothing has changed, or the session has its next revision and no other session
-- has changed.
abbrev pub Written : UploadSession → Coordination → ℕ × Coordination → Type 0
Written s t out =
    ((out.0 ≡ 0) × (out.1 ≡ t))
    ⊎ ((out.0 ≡ 1)
        × ((fallback : Option UploadSession)
            → seen s.upload_id out.1 fallback ≡ some (record s { revision = s.revision + 1 }))
        × ((id : Text) (fallback : Option UploadSession)
            → str_eq s.upload_id id ≡ false
            → seen id out.1 fallback ≡ seen id t fallback))

abbrev row_of : ℕ → UploadSession → SessionRow
row_of checked s = record { revision = s.revision + 1; state = s; cleanup_checked_at = checked }

Written-sessions :
    (s : UploadSession) (t : Coordination) (sessions : List SessionRow) (checked : ℕ)
    → is_deleted s.upload_id t ≡ false
    → find_session s.upload_id sessions ≡ some (row_of checked s)
    → ((id : Text)
        → str_eq s.upload_id id ≡ false
        → find_session id sessions ≡ find_session id t.sessions)
    → Written s t (1, record t { sessions = sessions })
unfolding is_deleted
Written-sessions s t sessions checked live found others = inr (
  refl,
  (λ fallback. rw live (ap (answer fallback) found)),
  λ id fallback other.
      ap (λ o. if is_deleted id t then none else answer fallback o) (others id other),
)

insert-Written : (s : UploadSession) (t : Coordination) → Written s t (insert_session s t)
unfolding insert_session find_session
insert-Written s t = absent (find_session s.upload_id t.sessions) refl
  where
    absent :
        (o : Option SessionRow)
        → find_session s.upload_id t.sessions ≡ o
        → Written s t (elim o [
          | none ↦
              if is_deleted s.upload_id t
              then (0, t)
              else (1, record t { sessions = t.sessions ++ row_of 0 s ∷ [] })
          | some row ↦ (0, t)
        ])
    absent none e = elim (Bool-cases (is_deleted s.upload_id t)) [
      | inl gone ↦ rw gone (inl (refl, refl))
      | inr live ↦ rw live (
          Written-sessions s t (t.sessions ++ row_of 0 s ∷ []) 0 live
            (find-fresh session_key (row_of 0 s) t.sessions s.upload_id e refl)
            (find-appended-other session_key (row_of 0 s) t.sessions))
    ]
    absent (some row) e = inl (refl, refl)

update-Written : (s : UploadSession) (t : Coordination) → Written s t (update_session s t)
unfolding update_session find_session
update-Written s t = present (find_session s.upload_id t.sessions) refl
  where
    present :
        (o : Option SessionRow)
        → find_session s.upload_id t.sessions ≡ o
        → Written s t (elim o [
          | none ↦ (0, t)
          | some row ↦
              if row.revision == s.revision && not (is_deleted s.upload_id t)
              then (
                1,
                record t {
                  sessions = map (placed session_key (row_of row.cleanup_checked_at s)) t.sessions;
                },
              )
              else (0, t)
        ])
    present none e = inl (refl, refl)
    present (some row) e =
        elim (Bool-cases (row.revision == s.revision && not (is_deleted s.upload_id t))) [
          | inl fits ↦
              let next = row_of row.cleanup_checked_at s in
              let live = not-true _ (&&-true (row.revision == s.revision) _ fits).1 in
              rw fits (
                Written-sessions s t (map (placed session_key next) t.sessions)
                  row.cleanup_checked_at live
                  (find-put-same session_key next row s.upload_id t.sessions e
                    (sym (find-key session_key s.upload_id t.sessions row e)))
                  (find-put-other session_key next t.sessions))
          | inr conflict ↦ rw conflict (inl (refl, refl))
        ]

pub write-Written : (s : UploadSession) (t : Coordination) → Written s t (write_session s t)
unfolding write_session
write-Written s t = elim (Bool-cases (s.revision == 0)) [
  | inl new ↦ rw new (insert-Written s t)
  | inr old ↦ rw old (update-Written s t)
]

buried : (id : Text) (t : Coordination) → is_deleted id (bury id t) ≡ true
unfolding is_deleted bury
buried id t = elim (Bool-cases (any (λ gone. str_eq gone id) t.tombstones)) [
  | inl already ↦ rw already already
  | inr live ↦ rw live (any-append _ t.tombstones id ∙ rw (live, str_eq_refl id) refl)
]

buried-other :
    (gone id : Text) (t : Coordination)
    → str_eq gone id ≡ false
    → is_deleted id (bury gone t) ≡ is_deleted id t
unfolding is_deleted bury
buried-other gone id t apart = elim (Bool-cases (any (λ x. str_eq x gone) t.tombstones)) [
  | inl already ↦ rw already refl
  | inr live ↦ rw live (any-append _ t.tombstones gone ∙ rw apart (or_false _))
]
  where
    or_false : (b : Bool) → (b || false) ≡ b
    or_false b = ground arith

-- A session that was deleted is not seen.
pub bury-gone :
    (gone : Text) (t : Coordination) (fallback : Option UploadSession)
    → seen gone (bury gone t) fallback ≡ none
bury-gone gone t fallback = rw (buried gone t) refl

differs :
    (gone id : Text) (r : SessionRow)
    → str_eq (session_key r) id ≡ true
    → str_eq gone id ≡ false
    → not (str_eq (session_key r) gone) ≡ true
differs gone id r hit apart = elim (Bool-cases (str_eq (session_key r) gone)) [
  | inl same ↦ cc (sym (subst (λ x. str_eq x id ≡ true) ((str_eq_iff _ _).0 same) hit) ∙ apart)
  | inr miss ↦ rw miss refl
]

-- A session that is deleted is gone, whatever was behind it, and no other session has changed.
pub bury-seen :
    (gone : Text) (t : Coordination) (id : Text) (fallback : Option UploadSession)
    → (seen id (bury gone t) fallback ≡ seen id t fallback)
      ⊎ ((id ≡ gone) × (seen id (bury gone t) fallback ≡ none))
unfolding bury find_session
bury-seen gone t id fallback = elim (Bool-cases (str_eq gone id)) [
  | inl hit ↦
      let same = (str_eq_iff gone id).0 hit in
      inr (sym same, rw (subst (λ x. is_deleted x (bury gone t) ≡ true) same (buried gone t)) refl)
  | inr apart ↦ inl (
      ap (λ b. if b then none else answer fallback (find_session id (bury gone t).sessions))
        (buried-other gone id t apart)
      ∙ ap (λ o. if is_deleted id t then none else answer fallback o) (kept apart))
]
  where
    kept :
        str_eq gone id ≡ false → find_session id (bury gone t).sessions ≡ find_session id t.sessions
    kept apart = first-filter _ _ (λ r hit. differs gone id r hit apart) t.sessions

pub seen-keyed :
    (id : Text) (t : Coordination) (fallback : Option UploadSession) (s : UploadSession)
    → (fallback ≡ some s → s.upload_id ≡ id)
    → seen id t fallback ≡ some s
    → s.upload_id ≡ id
unfolding find_session
seen-keyed id t fallback s keyed h = elim (Bool-cases (is_deleted id t)) [
  | inl gone ↦ cc (rw gone at h)
  | inr live ↦ by_row (find_session id t.sessions) refl (rw live at h)
]
  where
    by_row :
        (o : Option SessionRow)
        → find_session id t.sessions ≡ o
        → answer fallback o ≡ some s
        → s.upload_id ≡ id
    by_row none e h = keyed h
    by_row (some row) e h =
        ap (λ x. x.upload_id) (sym (some-injective _ _ h))
        ∙ find-key session_key id t.sessions row e

-- A write with a revision that is no longer the session's changes nothing.
pub write_session-stale :
    (s stored : UploadSession) (t : Coordination)
    → seen s.upload_id t none ≡ some stored
    → stored.revision ≡ s.revision + 1
    → (write_session s t).0 ≡ 0
unfolding write_session insert_session update_session
write_session-stale s stored t h next = elim (Bool-cases (is_deleted s.upload_id t)) [
  | inl gone ↦ cc (rw gone at h)
  | inr live ↦ by_row (find_session s.upload_id t.sessions) refl (rw live at h)
]
  where
    by_row :
        (o : Option SessionRow)
        → find_session s.upload_id t.sessions ≡ o
        → answer none o ≡ some stored
        → (write_session s t).0 ≡ 0
    by_row none e h = cc
    by_row (some row) e h =
        let ahead : row.revision ≡ s.revision + 1 =
          ap (λ x. x.revision) (some-injective _ _ h) ∙ next in
        let differ = ==_false row.revision s.revision (λ same. omega (arith, ahead, same)) in
        elim (Bool-cases (s.revision == 0)) [
          | inl new ↦ rw (write_session, new) (rw (insert_session, e) refl)
          | inr old ↦ rw (write_session, old) (rw (update_session, e) (rw differ refl))
        ]
